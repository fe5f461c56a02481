-- ===== src/Transfer/Prepare.antt =====
-- Creating, attributing and authorizing a transfer intent.
use swap_service.Base.{
  ℕ, pos, String, Bool, not, ◌&&◌, ◌||◌, none, some, ◌∷◌, ◌==◌, string_eq, int_eq, ℕ_eq, is_some,
  if◌then◌else◌, ltb_ℤ, Result, ok, err, value_error, runtime_error, integrity_error, ◌>>=◌, ◌>>◌,
  require, Value, require_positive, require_nonnegative, strip, is_empty, ◌++◌,
}
use swap_service.Database.{prepared, authorized, TransferRequest, TransferIntent, Database}
use swap_service.Credit.{minus_one}
use swap_service.Transfer.Intents.{
  intent_id, transfer_reference, require_operator_text, same_status, get_intent, find_source,
  has_reference, update_intent, has_exact_held_source, audit_evidence, has_matching_audit,
  record_audit_event,
}

abbrev pub same_terms : TransferRequest → TransferRequest → Bool
same_terms a b =
    (a.kind == b.kind)
    && (a.from_address == b.from_address)
    && (a.to_address == b.to_address)
    && (a.amount_usdd_units == b.amount_usdd_units)

abbrev pub new_intent : (String → String) → TransferRequest → ℕ → TransferIntent
new_intent digest r now =
    let id = intent_id digest r.source_txid r.source_contract_id in
    record {
      id = id;
      request = r;
      reference = transfer_reference id;
      status = prepared;
      remote_txid = none;
      contract_id = none;
      created_timestamp = now;
      last_attempt_timestamp = none;
      resolved_timestamp = none;
    }

-- The INSERT: `id` is the primary key and `reference` is UNIQUE.
abbrev pub insert_intent : TransferIntent → Database → Result (TransferIntent × Database)
insert_intent i db =
    if is_some (get_intent i.id db.transfer_intents)
      || has_reference i.reference db.transfer_intents
    then err integrity_error
    else ok (i, record db { transfer_intents = i ∷ db.transfer_intents })

-- The transaction of `create_nexus_transfer_intent`.
unfoldable pub create_in_transaction :
    (String → String) → TransferRequest → ℕ → Database → Result (TransferIntent × Database)
create_in_transaction digest r now db =
    if is_some (find_source r.source_txid minus_one db.transfer_intents)
    then err value_error
    else elim (find_source r.source_txid r.source_contract_id db.transfer_intents) [
      | some existing ↦ if same_terms existing.request r then ok (existing, db) else err value_error
      | none ↦
          if has_exact_held_source db r
          then insert_intent (new_intent digest r now) db
          else err value_error
    ]

-- `create_nexus_transfer_intent`.
unfoldable pub create_intent :
    (String → String)
    → String
    → String
    → Value
    → String
    → String
    → Value
    → ℕ
    → Database
    → Result (TransferIntent × Database)
create_intent digest kind source_txid source_contract_id from_address to_address amount now db = do
  units ← require_positive amount
  contract_id ← require_nonnegative source_contract_id
  require
      (not (
        is_empty (strip kind)
        || is_empty (strip source_txid)
        || is_empty (strip from_address)
        || is_empty (strip to_address)))
      value_error
  create_in_transaction digest
      (record {
        kind = strip kind;
        source_txid = strip source_txid;
        source_contract_id = pos contract_id;
        from_address = strip from_address;
        to_address = strip to_address;
        amount_usdd_units = units;
      })
      now db

-- The intent that an operator's command names, if it is there and is not a legacy row.
abbrev pub live_intent : String → Database → Result TransferIntent
live_intent id db = elim (get_intent id db.transfer_intents) [
  | none ↦ err value_error
  | some i ↦ if ltb_ℤ i.request.source_contract_id (pos 0) then err value_error else ok i
]

abbrev pub preparation : TransferIntent → String
preparation i = "prepared_" ++ i.request.kind

-- `record_nexus_transfer_preparation`.
unfoldable pub record_preparation : String → String → String → ℕ → Database → Result Database
record_preparation id actor rationale now db = do
  who ← require_operator_text actor
  why ← require_operator_text rationale
  i ← live_intent id db
  require (same_status i.status prepared) value_error
  record_audit_event id (preparation i) who why (audit_evidence i) now db

abbrev pub authorize_row : TransferIntent → TransferIntent
authorize_row i = record i { status = authorized }

-- The transaction of `authorize_nexus_transfer_intent`.
unfoldable pub authorize_in_transaction :
    String → String → String → String → ℕ → Database → Result (TransferIntent × Database)
authorize_in_transaction id who why reference now db = do
  i ← live_intent id db
  require (reference == i.reference) value_error
  require (same_status i.status prepared) value_error
  require (has_exact_held_source db i.request) value_error
  require (has_matching_audit (preparation i) i db.audit_events) value_error
  db' ←
      record_audit_event id "authorized_execution" who why (audit_evidence i) now
        (record db { transfer_intents = update_intent id authorize_row db.transfer_intents })
  elim (get_intent id db'.transfer_intents) [ none ↦ err runtime_error | some a ↦ ok (a, db') ]

-- `authorize_nexus_transfer_intent`.
unfoldable pub authorize :
    String → String → String → String → ℕ → Database → Result (TransferIntent × Database)
authorize id actor rationale expected_reference now db = do
  who ← require_operator_text actor
  why ← require_operator_text rationale
  reference ← require_operator_text expected_reference
  authorize_in_transaction id who why reference now db
