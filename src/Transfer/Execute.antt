-- ===== src/Transfer/Execute.antt =====
-- Requesting, claiming and advancing the one remote debit of a transfer intent.
use swap_service.Base.{
  ℕ, ◌+◌, ℤ, pos, String, Bool, true, false, not, ◌&&◌, ◌||◌, Option, none, some, List, [], ◌∷◌,
  ◌==◌, string_eq, int_eq, option_eq, is_some, if◌then◌else◌, ltb_ℤ, Result, ok, err, value_error,
  runtime_error, ◌>>=◌, ◌>>◌, require, Value, null, require_nonnegative, strip, is_empty,
}
use swap_service.Database.{
  IntentStatus, prepared, authorized, executing, submitted, outcome_unknown, completed,
  legacy_manual_hold, TransferIntent, Database,
}
use swap_service.Credit.{minus_one}
use swap_service.Transfer.Intents.{
  text_or_empty, require_operator_text, same_status, get_intent, update_intent,
  has_exact_held_source, audit_evidence, has_matching_audit, record_audit_event,
}
use swap_service.Transfer.Prepare.{live_intent}

-- `record_nexus_transfer_execution_request`.
unfoldable pub record_execution_request : String → String → String → ℕ → Database → Result Database
record_execution_request id actor rationale now db = do
  who ← require_operator_text actor
  why ← require_operator_text rationale
  i ← live_intent id db
  require (same_status i.status authorized) value_error
  require (has_exact_held_source db i.request) value_error
  record_audit_event id "execution_requested" who why (audit_evidence i) now db

-- The claiming UPDATE, which only an authorized row meets.
abbrev pub claim_row : ℕ → TransferIntent → TransferIntent
claim_row now i =
    if same_status i.status authorized && not (ltb_ℤ i.request.source_contract_id (pos 0))
    then record i { status = executing; last_attempt_timestamp = some now }
    else i

-- `claim_nexus_transfer_intent`.
unfoldable pub claim : String → ℕ → Database → Result (Option TransferIntent × Database)
claim id now db = elim (get_intent id db.transfer_intents) [
  | none ↦ ok (none, db)
  | some i ↦
      if ltb_ℤ i.request.source_contract_id (pos 0)
      then ok (none, db)
      else if not (has_exact_held_source db i.request)
      then ok (none, db)
      else if not (has_matching_audit "execution_requested" i db.audit_events)
      then ok (none, db)
      else if not (same_status i.status authorized)
      then ok (none, db)
      else let db' = record db {
        transfer_intents = update_intent id (claim_row now) db.transfer_intents;
      } in
        elim (get_intent id db'.transfer_intents) [
          | none ↦ err runtime_error
          | some row ↦ ok (some row, db')
        ]
]

-- The two UPDATEs of `recover_interrupted_nexus_transfer_intents`.
abbrev pub hold_legacy_row : TransferIntent → TransferIntent
hold_legacy_row i =
    if i.request.source_contract_id == minus_one
    then record i { status = legacy_manual_hold }
    else i

abbrev pub is_interrupted : TransferIntent → Bool
is_interrupted i =
    same_status i.status executing && not (ltb_ℤ i.request.source_contract_id (pos 0))

abbrev pub recover_row : TransferIntent → TransferIntent
recover_row i =
    let held = hold_legacy_row i in
    if is_interrupted held then record held { status = outcome_unknown } else held

unfoldable pub recover_rows : List TransferIntent → List TransferIntent
recover_rows [] = []
recover_rows (i ∷ is) = recover_row i ∷ recover_rows is

unfoldable pub count_interrupted : List TransferIntent → ℕ
count_interrupted [] = 0
count_interrupted (i ∷ is) =
    (if is_interrupted (hold_legacy_row i) then 1 else 0) + count_interrupted is

-- `recover_interrupted_nexus_transfer_intents`.
unfoldable pub recover_interrupted : Database → ℕ × Database
unfolding recover_rows count_interrupted
recover_interrupted db = (
  count_interrupted db.transfer_intents,
  record db { transfer_intents = recover_rows db.transfer_intents },
)

-- The statuses by their texts.
abbrev pub status_of_text : String → Option IntentStatus
status_of_text t =
    if t == "prepared"
    then some prepared
    else if t == "authorized"
    then some authorized
    else if t == "executing"
    then some executing
    else if t == "submitted"
    then some submitted
    else if t == "outcome_unknown"
    then some outcome_unknown
    else if t == "completed"
    then some completed
    else if t == "legacy_manual_hold"
    then some legacy_manual_hold
    else none

-- `transitions` of `update_nexus_transfer_intent`.
abbrev pub may_advance : IntentStatus → IntentStatus → Bool
may_advance executing submitted = true
may_advance executing outcome_unknown = true
may_advance executing completed = true
may_advance submitted completed = true
may_advance outcome_unknown completed = true
may_advance _ _ = false

-- `contract_id is not None and (type(contract_id) is not int or contract_id < 0)` raises.
abbrev pub optional_contract : Value → Result (Option ℤ)
optional_contract null = ok none
optional_contract v = require_nonnegative v >>= λ n. ok (some (pos n))

-- `COALESCE(?, column)`.
abbrev pub coalesce {ℓ} : {A : Type ℓ} → Option A → Option A → Option A
coalesce none b = b
coalesce (some a) b = some a

abbrev pub nonempty : String → Option String
nonempty t = if is_empty t then none else some t

abbrev pub agrees : Option ℤ → Option ℤ → Bool
agrees (some a) (some b) = a == b
agrees _ _ = true

abbrev pub advance_row :
    IntentStatus → Option String → Option ℤ → Bool → ℕ → TransferIntent → TransferIntent
advance_row status remote_txid contract_id resolved now i = record i {
  status = status;
  remote_txid = coalesce remote_txid i.remote_txid;
  contract_id = coalesce contract_id i.contract_id;
  resolved_timestamp = if resolved then some now else i.resolved_timestamp;
}

-- The transaction of `update_nexus_transfer_intent`, on a status that has a meaning.
unfoldable pub update_in_transaction :
    String → IntentStatus → String → Value → Bool → ℕ → Database → Result Database
update_in_transaction id status supplied contract_id resolved now db = do
  i ← live_intent id db
  require (may_advance i.status status) value_error
  let persisted = strip (text_or_empty i.remote_txid)
  require (is_empty persisted || is_empty supplied || (supplied == persisted)) value_error
  c ← optional_contract contract_id
  require (agrees c i.contract_id) value_error
  require
      (not (
        (same_status status submitted || same_status status completed)
        && is_empty supplied
        && is_empty persisted))
      value_error
  require (not (same_status status completed) || is_some (coalesce c i.contract_id)) value_error
  require (not resolved || same_status status completed) value_error
  ok (record db {
    transfer_intents =
        update_intent id (advance_row status (nonempty supplied) c resolved now)
          db.transfer_intents;
  })

-- `update_nexus_transfer_intent`. A status with no meaning is refused like one that is not next:
-- every check before it raises the same error.
unfoldable pub update_transfer :
    String → String → Option String → Value → Bool → ℕ → Database → Result Database
update_transfer id status remote_txid contract_id resolved now db =
    elim (status_of_text (strip status)) [
      | none ↦ err value_error
      | some s ↦
          update_in_transaction id s (strip (text_or_empty remote_txid)) contract_id resolved now db
    ]
