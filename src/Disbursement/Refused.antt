-- ===== src/Disbursement/Refused.antt =====
-- `finalize_nexus_credit` where it answers False.
use swap_service.Base.{
  ℕ, ◌≡◌, ap, ◌∙◌, false, not, ◌||◌, Option, none, some, arith, ◌⊎◌, is_empty, Bool-cases,
  Option-cases, inl, inr, ok, ◌>>=◌, >>=-eq-ok, if◌then◌else◌, string_eq, int_eq, option_eq,
  value_eq,
}
use swap_service.Database.{Database, PendingCredit, ProcessedCredit, reserved}
use swap_service.Credit.{get_pending, get_processed}
use swap_service.Payout.{settle_in_transaction, has_event}
use swap_service.Disbursement.{
  CreditEvidence, PayoutEvidence, finalize_credit_in_transaction, finalize_source, payout_evidence,
  fee_rows, journal_fee, settle_and_archive, archive, positive_units, nexus_obligation,
}
use swap_service.Disbursement.Archive.{settle-refused}

-- Nothing changes, or only the fee is journaled.
abbrev pub OnlyFee : CreditEvidence → ℕ → Database → Database → Type 0
OnlyFee e now db db' =
    (db' ≡ db) ⊎ (db' ≡ journal_fee e (fee_rows e.txid e.contract_id db.fee_entries) now db)

settle_and_archive-false :
    (e : CreditEvidence) (p : PayoutEvidence) (now : ℕ) (db db' : Database)
    → settle_and_archive e p now db ≡ ok (false, db')
    → db' ≡ db
unfolding settle_and_archive archive
settle_and_archive-false e p now db db' h =
    elim (Bool-cases (
      is_empty e.sig
      || not (has_event (nexus_obligation e.txid e.contract_id) reserved db.budget_events))) [
        | inl y ↦ ground (arith, h, y)
        | inr y ↦ elim (Option-cases (positive_units p.units)) [
          | inl n ↦ ground (arith, h, y, n)
          | inr (units, n) ↦
              let o = nexus_obligation e.txid e.contract_id in
              let answered : (settle_in_transaction o e.sig units now db >>= λ (settled, base).
              if settled then archive e p base else ok (false, base))
                  ≡ ok (false, db') =
                ground (arith, h, y, n) in
              let ((settled, base), e₁, e₂) =
                >>=-eq-ok (settle_in_transaction o e.sig units now db) _ answered in
              elim (Bool-cases settled) [
                | inl z ↦ ground (arith, e₂, z)
                | inr z ↦ ground (
                  arith,
                  e₂,
                  z,
                  settle-refused o e.sig units now db base (e₁ ∙ ap (λ w. ok (w, base)) z),
                )
              ]
        ]
      ]

finalize_source-OnlyFee :
    (e : CreditEvidence) (source : Option PendingCredit) (terminal : Option ProcessedCredit)
    (now : ℕ) (db db' : Database)
    → finalize_source e source terminal now db ≡ ok (false, db')
    → OnlyFee e now db db'
finalize_source-OnlyFee e source terminal now db db' h =
    elim (Option-cases (payout_evidence e source terminal)) [
      | inl n ↦ ground (arith, h, n)
      | inr (p, n) ↦ elim (Option-cases terminal) [
        | inr (t, k) ↦ ground (arith, h, n, k)
        | inl k ↦ ground (
          arith,
          h,
          n,
          k,
          settle_and_archive-false e p now
              (journal_fee e (fee_rows e.txid e.contract_id db.fee_entries) now db) db',
        )
      ]
    ]

-- A finalization that returns False leaves every table as it was, or has journaled the fee and changed
-- nothing else.
pub finalize_credit_refused :
    (e : CreditEvidence) (now : ℕ) (db db' : Database)
    → finalize_credit_in_transaction e now db ≡ ok (false, db')
    → OnlyFee e now db db'
unfolding finalize_credit_in_transaction
finalize_credit_refused e now db db' h =
    elim (Option-cases (get_pending e.txid e.contract_id db.unprocessed_txids)) [
      | inl g ↦ ground (
        arith,
        h,
        g,
        finalize_source-OnlyFee e none (get_processed e.txid e.contract_id db.processed_txids) now
            db db',
      )
      | inr (c, g) ↦ ground (
        arith,
        h,
        g,
        finalize_source-OnlyFee e (some c) (get_processed e.txid e.contract_id db.processed_txids)
            now db db',
      )
    ]
