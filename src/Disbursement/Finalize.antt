-- ===== src/Disbursement/Finalize.antt =====
-- `finalize_nexus_credit`: journaling the fee, archiving the exact credit and removing its row.
use swap_service.Base.{
  ℕ, ℤ, pos, String, Bool, true, false, not, ◌&&◌, ◌||◌, Option, none, some, List, [], ◌∷◌,
  string_eq, int_eq, ℕ_eq, option_eq, value_eq, is_some, if◌then◌else◌, ltb, Result, ok, err,
  value_error, ◌>>=◌, is_empty,
}
use swap_service.Database.{reserved, PendingCredit, ProcessedCredit, Database}
use swap_service.Credit.{get_pending, get_processed, get_returned, delete_pending}
use swap_service.Payout.{has_event, settle_in_transaction}
use swap_service.Disbursement.Prepare.{nexus_obligation, has_intent}
use swap_service.Disbursement.Evidence.{
  has_legacy_fee, fee_rows, is_expected_fee, is_expected_source, positive_units, payout_evidence,
  terminal_row, same_terminal, CreditEvidence, PayoutEvidence,
}

-- The fee's row, if there is a fee and no row of it.
unfoldable pub journal_fee : CreditEvidence → List (String × ℤ) → ℕ → Database → Database
journal_fee e [] now db =
    if ltb 0 e.fee_nexus_units
    then record db {
      fee_entries =
          record {
            sig = none;
            txid = some e.txid;
            kind = elim e.fee_kind [ none ↦ "" | some k ↦ k ];
            amount_usdc_units = none;
            amount_usdd_units = some (pos e.fee_nexus_units);
            contract_id = e.contract_id;
            timestamp = now;
          }
          ∷ db.fee_entries;
    }
    else db
journal_fee e (_ ∷ _) now db = db

-- The INSERT into processed_txids and the DELETE of the source.
unfoldable pub archive : CreditEvidence → PayoutEvidence → Database → Result (Bool × Database)
archive e p db = ok (
  true,
  record db {
    processed_txids = terminal_row e p ∷ db.processed_txids;
    unprocessed_txids = delete_pending e.txid e.contract_id db.unprocessed_txids;
  },
)

-- Settling the reserved budget of a payout before it is archived.
unfoldable pub settle_and_archive :
    CreditEvidence → PayoutEvidence → ℕ → Database → Result (Bool × Database)
settle_and_archive e p now db =
    let obligation = nexus_obligation e.txid e.contract_id in
    if is_empty e.sig || not (has_event obligation reserved db.budget_events)
    then archive e p db
    else elim (positive_units p.units) [
      | none ↦ err value_error
      | some units ↦ settle_in_transaction obligation e.sig units now db >>= λ (settled, db').
          if settled then archive e p db' else ok (false, db')
    ]

abbrev pub is_some_row : List (String × ℤ) → Bool
is_some_row [] = false
is_some_row (_ ∷ _) = true

-- The rest of the transaction, on the source and the terminal row that it has read.
abbrev pub finalize_source :
    CreditEvidence
    → Option PendingCredit
    → Option ProcessedCredit
    → ℕ
    → Database
    → Result (Bool × Database)
finalize_source e source terminal now db = elim (payout_evidence e source terminal) [
  | none ↦ ok (false, db)
  | some p ↦
      let rows = fee_rows e.txid e.contract_id db.fee_entries in
      if not (is_expected_fee e rows) && is_some_row rows then ok (false, db) else elim terminal [
        | some t ↦ ok (same_terminal t (terminal_row e p) && is_expected_fee e rows, db)
        | none ↦
            if is_some (get_returned e.txid e.contract_id db.refunded_txids)
              || is_some (get_returned e.txid e.contract_id db.quarantined_txids)
            then ok (false, db)
            else settle_and_archive e p now (journal_fee e rows now db)
      ]
]

-- The transaction of `finalize_nexus_credit`.
unfoldable pub finalize_credit_in_transaction :
    CreditEvidence → ℕ → Database → Result (Bool × Database)
unfolding payout_evidence settle_and_archive journal_fee archive
finalize_credit_in_transaction e now db =
    if has_legacy_fee e.txid db.fee_entries
    then ok (false, db)
    else if has_intent e.txid e.contract_id db.transfer_intents
    then ok (false, db)
    else let source = get_pending e.txid e.contract_id db.unprocessed_txids in
      let terminal = get_processed e.txid e.contract_id db.processed_txids in
      elim source [
        | none ↦ finalize_source e none terminal now db
        | some c ↦
            if is_expected_source e c
            then finalize_source e (some c) terminal now db
            else ok (false, db)
      ]
