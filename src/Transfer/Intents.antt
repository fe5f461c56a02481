-- ===== src/Transfer/Intents.antt =====
-- Rows of nexus_transfer_intents and nexus_transfer_audit_events.
use Prim.Native.Char.{Char, code}
use swap_service.Base.{
  ℕ, ℤ, pos, String, Bool, true, false, not, ◌&&◌, ◌||◌, Option, none, some, List, [], ◌∷◌, ◌==◌,
  string_eq, int_eq, option_eq, value_eq, if◌then◌else◌, nat_eq, ltb, ltb_ℤ, Result, ok, err,
  value_error, int, null, strip, is_empty, text_length, ◌++◌, decimal,
}
use swap_service.Database.{
  IntentStatus, prepared, authorized, executing, submitted, outcome_unknown, completed,
  legacy_manual_hold, TransferRequest, TransferIntent, AuditEvidence, AuditEvent, PendingCredit,
  Database,
}
use swap_service.Credit.{get_pending, has_terminal, has_fee_evidence}

-- `str(value or "")` of a column.
abbrev pub text_or_empty : Option String → String
text_or_empty none = ""
text_or_empty (some s) = s

-- `_nexus_transfer_intent_id`; `digest` is the first 32 digits of a text's SHA-256.
unfoldable pub intent_id : (String → String) → String → ℤ → String
intent_id digest txid contract_id = "nexus-transfer-" ++ digest (txid ++ ":" ++ decimal contract_id)

abbrev is_dash : Char → Bool
is_dash c = nat_eq (code c) 45

has_dash : String → Bool
has_dash String.[] = false
has_dash (String.◌∷◌ c s) = is_dash c || has_dash s

-- `text.rsplit("-", 1)[-1]`.
unfoldable pub after_last_dash : String → String
unfolding has_dash
after_last_dash String.[] = String.[]
after_last_dash (String.◌∷◌ c s) =
    let rest = after_last_dash s in
    if has_dash s then rest else if is_dash c then s else String.◌∷◌ c s

-- `_nexus_transfer_reference`.
unfoldable pub transfer_reference : String → String
unfolding after_last_dash
transfer_reference id = "bridge-xfer:" ++ after_last_dash id

-- `_require_operator_text`.
unfoldable pub require_operator_text : String → Result String
require_operator_text value =
    let t = strip value in if is_empty t || ltb 500 (text_length t) then err value_error else ok t

abbrev pub same_status : IntentStatus → IntentStatus → Bool
same_status prepared prepared = true
same_status authorized authorized = true
same_status executing executing = true
same_status submitted submitted = true
same_status outcome_unknown outcome_unknown = true
same_status completed completed = true
same_status legacy_manual_hold legacy_manual_hold = true
same_status _ _ = false

-- `get_nexus_transfer_intent`.
abbrev pub get_intent : String → List TransferIntent → Option TransferIntent
get_intent id [] = none
get_intent id (i ∷ is) = if i.id == id then some i else get_intent id is

abbrev pub find_source : String → ℤ → List TransferIntent → Option TransferIntent
find_source t c [] = none
find_source t c (i ∷ is) =
    if (i.request.source_txid == t) && (i.request.source_contract_id == c)
    then some i
    else find_source t c is

abbrev pub has_reference : String → List TransferIntent → Bool
has_reference r [] = false
has_reference r (i ∷ is) = (i.reference == r) || has_reference r is

-- `UPDATE nexus_transfer_intents SET … WHERE id = ?`.
abbrev pub update_intent :
    String → (TransferIntent → TransferIntent) → List TransferIntent → List TransferIntent
update_intent id f [] = []
update_intent id f (i ∷ is) = (if i.id == id then f i else i) ∷ update_intent id f is

-- The held credit's columns against the terms of the transfer.
unfoldable pub is_held_for : TransferRequest → PendingCredit → Bool
is_held_for r c =
    (c.amount_usdd_units == int (pos r.amount_usdd_units))
    && (text_or_empty c.to_address == r.from_address)
    && (c.status == some "refund held for operator review")
    && is_empty (text_or_empty c.sig)
    && (c.payout_solana_units == null)
    && (c.payout_fee_nexus_units == null)
    && (not (r.kind == "refund") || (text_or_empty c.from_address == r.to_address))

-- `_nexus_transfer_has_exact_held_source`.
unfoldable pub has_exact_held_source : Database → TransferRequest → Bool
has_exact_held_source db r =
    not (ltb_ℤ r.source_contract_id (pos 0))
    && not (has_fee_evidence r.source_txid r.source_contract_id db.fee_entries)
    && elim (get_pending r.source_txid r.source_contract_id db.unprocessed_txids) [
      | none ↦ false
      | some c ↦ is_held_for r c
    ]
    && not (has_terminal r.source_txid r.source_contract_id db)

-- `SELECT … FROM nexus_transfer_audit_events WHERE intent_id = ? AND action = ?`.
abbrev pub get_audit : String → String → List AuditEvent → Option AuditEvent
get_audit id action [] = none
get_audit id action (a ∷ as_) =
    if (a.intent_id == id) && (a.action == action) then some a else get_audit id action as_

-- `_nexus_transfer_audit_evidence`.
abbrev pub audit_evidence : TransferIntent → AuditEvidence
audit_evidence i = record {
  reference = i.reference;
  source_contract_id = i.request.source_contract_id;
  source_txid = i.request.source_txid;
  remote_txid = none;
  remote_contract_id = none;
  disposition = none;
}

-- `_audit_evidence_matches_intent`.
abbrev pub evidence_matches : AuditEvidence → TransferIntent → Bool
evidence_matches e i =
    (e.reference == i.reference)
    && (e.source_txid == i.request.source_txid)
    && (e.source_contract_id == i.request.source_contract_id)

abbrev pub has_matching_audit : String → TransferIntent → List AuditEvent → Bool
has_matching_audit action i as_ = elim (get_audit i.id action as_) [
  | none ↦ false
  | some a ↦ evidence_matches a.evidence i
]

abbrev pub same_evidence : AuditEvidence → AuditEvidence → Bool
same_evidence a b =
    (a.reference == b.reference)
    && (a.source_contract_id == b.source_contract_id)
    && (a.source_txid == b.source_txid)
    && (a.remote_txid == b.remote_txid)
    && (a.remote_contract_id == b.remote_contract_id)
    && (a.disposition == b.disposition)

-- `_record_nexus_transfer_audit_event`.
unfoldable pub record_audit_event :
    String → String → String → String → AuditEvidence → ℕ → Database → Result Database
record_audit_event id action actor rationale evidence now db =
    elim (get_audit id action db.audit_events) [
      | some a ↦
          if (a.actor == actor) && (a.rationale == rationale) && same_evidence a.evidence evidence
          then ok db
          else err value_error
      | none ↦ ok (record db {
        audit_events =
            record {
              intent_id = id;
              action = action;
              actor = actor;
              rationale = rationale;
              evidence = evidence;
              timestamp = now;
            }
            ∷ db.audit_events;
      })
    ]
