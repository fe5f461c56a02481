-- ===== src/Transfer/Dispose.antt =====
-- The disposition of a held source after its completed transfer.
use swap_service.Base.{
  ℕ, ℤ, pos, String, Bool, true, false, not, ◌&&◌, ◌||◌, Option, none, some, ◌∷◌, ◌==◌, string_eq,
  int_eq, option_eq, value_eq, is_some, if◌then◌else◌, ltb_ℤ, Result, ok, err, integrity_error,
  ◌>>=◌, Value, int,
}
use swap_service.Database.{
  completed, TransferIntent, AuditEvidence, PendingCredit, ReturnedCredit, Database,
}
use swap_service.Credit.{get_pending, get_returned, has_terminal, delete_pending}
use swap_service.Transfer.Intents.{
  text_or_empty, require_operator_text, same_status, get_intent, has_exact_held_source,
  audit_evidence, record_audit_event,
}

-- The row for refunded_txids or quarantined_txids; quarantined_txids has no column for the
-- confirmations.
abbrev pub returned_row : PendingCredit → Value → String → String → ReturnedCredit
returned_row c confirmations status remote_txid = record {
  txid = c.txid;
  contract_id = c.contract_id;
  timestamp = c.timestamp;
  amount_usdd = c.amount_usdd;
  from_address = c.from_address;
  to_address = c.to_address;
  owner = c.owner_from_address;
  confirmations_credit = confirmations;
  status = some status;
  sig = some remote_txid;
}

abbrev pub disposition_evidence : TransferIntent → String → AuditEvidence
disposition_evidence i remote_txid = record (audit_evidence i) {
  remote_txid = some remote_txid;
  remote_contract_id = i.contract_id;
  disposition = some i.request.kind;
}

-- `int(intent["contract_id"]) < 0`, or no integer at all.
abbrev pub has_contract : Option ℤ → Bool
has_contract none = false
has_contract (some c) = not (ltb_ℤ c (pos 0))

-- The source as it is read a second time.
abbrev pub is_unchanged : TransferIntent → PendingCredit → Bool
is_unchanged i c =
    (c.contract_id == i.request.source_contract_id)
    && (c.status == some "refund held for operator review")
    && (c.amount_usdd_units == int (pos i.request.amount_usdd_units))
    && (text_or_empty c.to_address == i.request.from_address)

-- The DELETE of the source and the audit row.
abbrev pub remove_source :
    TransferIntent
    → PendingCredit
    → String
    → String
    → String
    → String
    → ℕ
    → Database
    → Result (Bool × Database)
remove_source i c action who why remote_txid now db =
    record_audit_event i.id action who why (disposition_evidence i remote_txid) now
      (record db { unprocessed_txids = delete_pending c.txid c.contract_id db.unprocessed_txids })
    >>= λ db'. ok (true, db')

unfoldable pub dispose_source :
    TransferIntent
    → PendingCredit
    → String
    → String
    → String
    → ℕ
    → Database
    → Result (Bool × Database)
dispose_source i c who why remote_txid now db =
    if i.request.kind == "refund"
    then if not (text_or_empty c.from_address == i.request.to_address)
      then ok (false, db)
      else if is_some (get_returned c.txid c.contract_id db.refunded_txids)
      then err integrity_error
      else remove_source i c "finalized_refund" who why remote_txid now (record db {
        refunded_txids =
            returned_row c c.confirmations_credit "refund_confirmed_by_operator" remote_txid
            ∷ db.refunded_txids;
      })
    else if i.request.kind == "quarantine"
    then if is_some (get_returned c.txid c.contract_id db.quarantined_txids)
      then err integrity_error
      else remove_source i c "finalized_quarantine" who why remote_txid now (record db {
        quarantined_txids =
            returned_row c Value.null "quarantine_confirmed_by_operator" remote_txid
            ∷ db.quarantined_txids;
      })
    else ok (false, db)

-- The transaction of `finalize_nexus_transfer_disposition`.
unfoldable pub finalize_in_transaction :
    String → String → String → String → ℕ → Database → Result (Bool × Database)
unfolding dispose_source
finalize_in_transaction id who why remote_txid now db = elim (get_intent id db.transfer_intents) [
  | none ↦ ok (false, db)
  | some i ↦
      if ltb_ℤ i.request.source_contract_id (pos 0)
        || not (same_status i.status completed)
        || not (text_or_empty i.remote_txid == remote_txid)
        || not (has_contract i.contract_id)
      then ok (false, db)
      else if not (has_exact_held_source db i.request)
      then ok (false, db)
      else elim (get_pending i.request.source_txid i.request.source_contract_id
          db.unprocessed_txids) [
            | none ↦ ok (false, db)
            | some c ↦
                if not (is_unchanged i c)
                then ok (false, db)
                else if has_terminal c.txid i.request.source_contract_id db
                then ok (false, db)
                else dispose_source i c who why remote_txid now db
          ]
]

-- `finalize_nexus_transfer_disposition`.
unfoldable pub finalize :
    String → String → String → String → ℕ → Database → Result (Bool × Database)
finalize id actor rationale expected_remote_txid now db = do
  who ← require_operator_text actor
  why ← require_operator_text rationale
  remote_txid ← require_operator_text expected_remote_txid
  finalize_in_transaction id who why remote_txid now db
