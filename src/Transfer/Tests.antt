-- ===== src/Transfer/Tests.antt =====
-- Runs of the transfer intents, and their theorems at concrete databases.
use swap_service.Base.{
  pos, String, ◌≡◌, refl, ◌≢◌, true, false, none, some, [], ◌∷◌, ok, int, null, real, strip,
  require_positive, require_nonnegative,
}
use swap_service.Database.{
  empty_database, Database, PendingCredit, TransferRequest, TransferIntent, AuditEvent, prepared,
  authorized, executing, completed,
}
use swap_service.Credit.{get_pending, has_terminal, delete_pending}
use swap_service.Transfer.{
  intent_id, transfer_reference, create_intent, create_in_transaction, has_exact_held_source,
  is_held_for, claim, finalize_in_transaction, dispose_source, record_audit_event, get_intent,
  has_matching_audit, text_or_empty, returned_row,
}
use swap_service.Transfer.Status.{Advances}
use swap_service.Transfer.Creation.{create_again, create-Stores, Stores}
use swap_service.Transfer.Claims.{claim_granted, claim_once, claimed_row}
use swap_service.Transfer.Disposal.{finalize_moves, finalize_refused, DisposedAs}
use swap_service.Transfer.History.{recovers, claims, run, run-Progress}

abbrev empty : Database
empty = empty_database

abbrev held_credit : PendingCredit
held_credit = record {
  txid = "tx";
  contract_id = pos 0;
  timestamp = int (pos 50);
  amount_usdd = real (pos 1) (pos 0);
  from_address = some "alice";
  to_address = some "treasury";
  owner_from_address = some "alice_owner";
  confirmations_credit = int (pos 12);
  status = some "refund held for operator review";
  receival_account = none;
  sig = none;
  amount_usdd_units = int (pos 500);
  hold_reason = none;
  payout_solana_units = null;
  payout_fee_nexus_units = null;
}

abbrev refund : TransferRequest
refund = record {
  kind = "refund";
  source_txid = "tx";
  source_contract_id = pos 0;
  from_address = "treasury";
  to_address = "alice";
  amount_usdd_units = 500;
}

abbrev digest : String → String
digest s = "0123456789abcdef0123456789abcdef"

abbrev one_held : Database
one_held = record empty { unprocessed_txids = held_credit ∷ [] }

abbrev created : TransferIntent
created = record {
  id = intent_id digest "tx" (pos 0);
  request = refund;
  reference = transfer_reference (intent_id digest "tx" (pos 0));
  status = prepared;
  remote_txid = none;
  contract_id = none;
  created_timestamp = 100;
  last_attempt_timestamp = none;
  resolved_timestamp = none;
}

abbrev one_created : Database
one_created = record one_held { transfer_intents = created ∷ [] }

create_in_transaction_run :
    create_in_transaction digest refund 100 one_held ≡ ok (created, one_created)
unfolding create_in_transaction has_exact_held_source is_held_for
create_in_transaction_run = refl

create_run :
    create_intent digest " refund" "tx"
      (int (pos 0))
      "treasury"
      "alice"
      (int (pos 500))
      100
      one_held
    ≡ ok (created, one_created)
unfolding create_intent create_in_transaction has_exact_held_source is_held_for strip
    require_positive require_nonnegative
create_run = refl

create_again_example :
    create_intent digest " refund" "tx"
      (int (pos 0))
      "treasury"
      "alice"
      (int (pos 500))
      170
      one_created
    ≡ ok (created, one_created)
create_again_example =
    create_again digest " refund" "tx" (int (pos 0)) "treasury" "alice" (int (pos 500)) 100 170
      one_held one_created created create_run

create-Stores_example : Stores digest refund 100 one_held created one_created
create-Stores_example =
    create-Stores digest refund 100 one_held one_created created create_in_transaction_run

-- An authorized intent whose execution is requested.
abbrev ready_intent : TransferIntent
ready_intent = record created { id = "i1"; reference = "bridge-xfer:1"; status = authorized }

abbrev requested : AuditEvent
requested = record {
  intent_id = "i1";
  action = "execution_requested";
  actor = "operator";
  rationale = "checked";
  evidence = record {
    reference = "bridge-xfer:1";
    source_contract_id = pos 0;
    source_txid = "tx";
    remote_txid = none;
    remote_contract_id = none;
    disposition = none;
  };
  timestamp = 150;
}

abbrev one_ready : Database
one_ready = record one_held { transfer_intents = ready_intent ∷ []; audit_events = requested ∷ [] }

abbrev executing_intent : TransferIntent
executing_intent = record ready_intent { status = executing; last_attempt_timestamp = some 200 }

abbrev one_executing : Database
one_executing = record one_ready { transfer_intents = executing_intent ∷ [] }

claim_run : claim "i1" 200 one_ready ≡ ok (some executing_intent, one_executing)
unfolding claim has_exact_held_source is_held_for
claim_run = refl

claim_granted_example :
    (before : TransferIntent) × (get_intent "i1" one_ready.transfer_intents ≡ some before)
    × (before.status ≡ authorized)
    × (has_exact_held_source one_ready before.request ≡ true)
    × (has_matching_audit "execution_requested" before one_ready.audit_events ≡ true)
    × (executing_intent ≡ claimed_row 200 before)
    × (get_intent "i1" one_executing.transfer_intents ≡ some executing_intent)
claim_granted_example = claim_granted "i1" 200 one_ready one_executing executing_intent claim_run

claim_once_example :
    claim "i1" 220 (run digest ((210, recovers) ∷ (215, claims "i1") ∷ []) one_executing)
    ≢ ok (some executing_intent, one_executing)
claim_once_example =
    claim_once digest "i1" 200 220 one_ready one_executing one_executing executing_intent
      executing_intent ((210, recovers) ∷ (215, claims "i1") ∷ []) claim_run

run-Progress_example : Advances (get_intent "i1" one_ready.transfer_intents) (
    get_intent "i1"
      (run digest ((200, claims "i1") ∷ (210, recovers) ∷ []) one_ready).transfer_intents)
run-Progress_example =
    run-Progress digest ((200, claims "i1") ∷ (210, recovers) ∷ []) one_ready "i1"

-- A completed intent, and its source before and after the disposition.
abbrev done_intent : TransferIntent
done_intent = record executing_intent {
  status = completed;
  remote_txid = some "r1";
  contract_id = some (pos 3);
}

abbrev one_done : Database
one_done = record one_ready { transfer_intents = done_intent ∷ [] }

abbrev finalized : AuditEvent
finalized = record {
  intent_id = "i1";
  action = "finalized_refund";
  actor = "operator";
  rationale = "sent";
  evidence = record {
    reference = "bridge-xfer:1";
    source_contract_id = pos 0;
    source_txid = "tx";
    remote_txid = some "r1";
    remote_contract_id = some (pos 3);
    disposition = some "refund";
  };
  timestamp = 300;
}

abbrev one_refunded : Database
one_refunded = record one_done {
  unprocessed_txids = [];
  refunded_txids = returned_row held_credit (int (pos 12)) "refund_confirmed_by_operator" "r1" ∷ [];
  audit_events = finalized ∷ requested ∷ [];
}

finalize_run :
    finalize_in_transaction "i1" "operator" "sent" "r1" 300 one_done ≡ ok (true, one_refunded)
unfolding finalize_in_transaction dispose_source has_exact_held_source is_held_for
    record_audit_event
finalize_run = refl

finalize_moves_example :
    (i : TransferIntent) × (c : PendingCredit) × (get_intent "i1" one_done.transfer_intents
      ≡ some i)
    × (i.status ≡ completed)
    × (text_or_empty i.remote_txid ≡ "r1")
    × (get_pending i.request.source_txid i.request.source_contract_id one_done.unprocessed_txids
        ≡ some c)
    × (is_held_for i.request c ≡ true)
    × (has_terminal i.request.source_txid i.request.source_contract_id one_done ≡ false)
    × (one_refunded.unprocessed_txids
        ≡ delete_pending i.request.source_txid i.request.source_contract_id
            one_done.unprocessed_txids)
    × (one_refunded.processed_txids ≡ one_done.processed_txids)
    × DisposedAs i c "r1" one_done one_refunded
finalize_moves_example =
    finalize_moves "i1" "operator" "sent" "r1" 300 one_done one_refunded finalize_run

wrong_remote_run :
    finalize_in_transaction "i1" "operator" "sent" "r2" 300 one_done ≡ ok (false, one_done)
unfolding finalize_in_transaction
wrong_remote_run = refl

finalize_refused_example : one_done ≡ one_done
finalize_refused_example =
    finalize_refused "i1" "operator" "sent" "r2" 300 one_done one_done wrong_remote_run
