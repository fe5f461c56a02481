-- ===== src/Disbursement/Outcomes.antt =====
-- `finalize_nexus_credit` where it answers True.
use swap_service.Base.{
  ℕ, ℤ, String, ◌≡◌, Bool, true, false, not, ◌&&◌, Option, none, some, List, arith, ◌⊎◌,
  Option-cases, inl, inr, Result, ok, subst, ltb, if◌then◌else◌, is_some, string_eq, int_beq,
  int_eq, option_eq, value_eq,
}
use swap_service.Database.{Database, PendingCredit, ProcessedCredit}
use swap_service.Credit.{get_pending, get_processed, get_returned, minus_one}
use swap_service.Disbursement.{
  CreditEvidence, PayoutEvidence, finalize_credit_in_transaction, finalize_source, payout_evidence,
  terminal_row, fee_rows, is_expected_fee, is_some_row, same_terminal,
}
use swap_service.Disbursement.Archive.{same_terminal_refl}
use swap_service.Disbursement.Repeat.{Fresh, finalize_source-Fresh}
use swap_service.Disbursement.Columns.{
  IsPayoutOf, HasEvidence, same_terminal-HasEvidence, payout_evidence-IsPayoutOf,
}

-- The credit is archived with this evidence and its payout, and its fee is journaled exactly once.
-- Either it was so before, or it is no longer pending and no other disposition holds it.
abbrev pub Archived : CreditEvidence → Database → Database → Type 0
Archived e db db' =
    (p : PayoutEvidence) × (t : ProcessedCredit) × IsPayoutOf e
      (get_pending e.txid e.contract_id db.unprocessed_txids)
      (get_processed e.txid e.contract_id db.processed_txids) p
    × (get_processed e.txid e.contract_id db'.processed_txids ≡ some t)
    × HasEvidence e p t
    × (is_expected_fee e (fee_rows e.txid e.contract_id db'.fee_entries) ≡ true)
    × ((db' ≡ db)
        ⊎ ((get_processed e.txid e.contract_id db.processed_txids ≡ none)
            × (get_pending e.txid e.contract_id db'.unprocessed_txids ≡ none)
            × (is_some (get_returned e.txid e.contract_id db'.refunded_txids) ≡ false)
            × (is_some (get_returned e.txid e.contract_id db'.quarantined_txids) ≡ false)))

known_tests :
    (alike fee some_row : Bool) (db db' : Database)
    → if◌then◌else◌ {A = Result (Bool × Database)}
        (not fee && some_row)
        (ok (false, db))
        (ok (alike && fee, db))
      ≡ ok (true, db')
    → (alike ≡ true) × (fee ≡ true) × (db' ≡ db)
known_tests alike fee some_row db db' h = ground (arith, h)

-- `finalize_source` on a credit that is archived.
answer :
    CreditEvidence
    → ProcessedCredit
    → Database
    → List (String × ℤ)
    → Option PayoutEvidence
    → Result (Bool × Database)
answer e t db rows none = ok (false, db)
answer e t db rows (some p) =
    if not (is_expected_fee e rows) && is_some_row rows
    then ok (false, db)
    else ok (same_terminal t (terminal_row e p) && is_expected_fee e rows, db)

known-Archived :
    (e : CreditEvidence) (source : Option PendingCredit) (t : ProcessedCredit) (now : ℕ)
    (db db' : Database)
    → get_pending e.txid e.contract_id db.unprocessed_txids ≡ source
    → get_processed e.txid e.contract_id db.processed_txids ≡ some t
    → finalize_source e source (some t) now db ≡ ok (true, db')
    → Archived e db db'
unfolding answer
known-Archived e source t now db db' g k h =
    elim (Option-cases (payout_evidence e source (some t))) [
      | inl n ↦ ground (arith, h, n)
      | inr (p, n) ↦
          let rows = fee_rows e.txid e.contract_id db.fee_entries in
          let answered = subst (λ o. answer e t db rows o ≡ ok (true, db')) n h in
          let (alike, fee, same) =
            known_tests (same_terminal t (terminal_row e p)) (is_expected_fee e rows)
              (is_some_row rows) db db' answered in
          (
            p,
            t,
            rw (g, k) (payout_evidence-IsPayoutOf e source (some t) p n),
            rw same k,
            same_terminal-HasEvidence e p t alike,
            rw same fee,
            inl same,
          )
    ]

Fresh-Archived :
    (e : CreditEvidence) (source : Option PendingCredit) (now : ℕ) (db db' : Database)
    → get_pending e.txid e.contract_id db.unprocessed_txids ≡ source
    → get_processed e.txid e.contract_id db.processed_txids ≡ none
    → Fresh e source now db db'
    → Archived e db db'
Fresh-Archived e source now db db' g k (p, n, fee, stored, gone, _, _, unrefunded, unquarantined) =
    (
      p,
      terminal_row e p,
      rw (g, k) (payout_evidence-IsPayoutOf e source none p n),
      stored,
      same_terminal-HasEvidence e p (terminal_row e p) (same_terminal_refl (terminal_row e p)),
      fee,
      inr (k, gone, unrefunded, unquarantined),
    )

-- A finalization that returns True leaves the credit archived with this evidence and the very payout
-- that its pending row fixed (or that was archived before, once that row is gone; none without a
-- signature), and its fee journaled exactly once; either nothing changed, or the credit was not archived before, is no longer pending
-- and is in no other terminal table. The contract id is not the legacy -1, and the fee has a kind
-- exactly if it is positive, as the operation's checks say.
pub finalize_archives :
    (e : CreditEvidence) (now : ℕ) (db db' : Database)
    → int_beq e.contract_id minus_one ≡ false
    → ltb 0 e.fee_nexus_units ≡ is_some e.fee_kind
    → finalize_credit_in_transaction e now db ≡ ok (true, db')
    → Archived e db db'
unfolding finalize_credit_in_transaction
finalize_archives e now db db' contract kind h =
    elim (Option-cases (get_processed e.txid e.contract_id db.processed_txids)) [
      | inr (t, k) ↦ elim (Option-cases (get_pending e.txid e.contract_id db.unprocessed_txids)) [
        | inl g ↦ known-Archived e none t now db db' g k (ground (arith, h, k, g))
        | inr (c, g) ↦ known-Archived e (some c) t now db db' g k (ground (arith, h, k, g))
      ]
      | inl k ↦ elim (Option-cases (get_pending e.txid e.contract_id db.unprocessed_txids)) [
        | inl g ↦
            Fresh-Archived e none now db db' g k
              (finalize_source-Fresh e contract kind none now db db' (ground (arith, h, k, g)))
        | inr (c, g) ↦
            Fresh-Archived e (some c) now db db' g k
              (finalize_source-Fresh e contract kind (some c) now db db' (ground (arith, h, k, g)))
      ]
    ]
