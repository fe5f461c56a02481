-- ===== src/Return/Tests.antt =====
-- Runs of refunds and quarantines, and their theorems at a concrete deposit.
use swap_service.Base.{
  pos, ◌≡◌, ◌⊎◌, refl, true, false, none, some, [], ◌∷◌, arith, int, ok, err, integrity_error,
  Ensures, require_positive, require_nonnegative, strip, strip_left, strip_right, is_space,
}
use swap_service.Database.{empty_database, Database, PendingDeposit, CapacityHold, Json, object}
use swap_service.Payout.{
  reserve_in_transaction, append_event, budget_usage, sum_unsettled, sum_confirmed, sum_payouts,
  require_text, reconstruct_in_transaction,
}
use swap_service.Deposit.{is_unambiguous}
use swap_service.Return.Kinds.{refund, find_kind}
use swap_service.Return.Intent.{
  ReturnRequest, FrozenIntent, intent_fields, intent_evidence, parse_intent, read_intent,
  intent_matches,
}
use swap_service.Return.Holds.{prepared, oldest_hold, write_hold, hold_capacity, waits_for_older}
use swap_service.Return.Claim.{
  refused, freeze_return, claim_capacity, with_hold, prepare_row, prepare_in_transaction,
}
use swap_service.Return.Prepare.{
  ReturnArguments, make_request, choose_evidence, check_arguments, settle_errors, prepare,
}
use swap_service.Return.Submit.{submit_return}
use swap_service.Return.Confirm.{confirm_return}
use swap_service.Return.Rebuild.{rebuild_evidence, may_rebuild, hold_source}
use swap_service.Return.Rebuilt.{rebuild_in_transaction, rebuild_row}
use swap_service.Return.Evidence.{parse-intent}
use swap_service.Return.Outcome.{Unchanged, frozen_database}
use swap_service.Return.Prepared.{prepare_cases, WasPrepared}
use swap_service.Return.Exclusive.{Exclusive, prepare-Exclusive}
use swap_service.Return.Complete.{prepared_completes, IsComplete}
use swap_service.Return.Recovered.{unproven_held, HeldWhole}

abbrev deposit : PendingDeposit
deposit = record {
  sig = "s1";
  timestamp = some (pos 1000);
  memo = none;
  from_address = some "sender";
  amount_usdc_units = some (pos 10);
  amount_usdd_units = none;
  status = some "to be refunded";
  txid = none;
  reference = none;
  policy_decision = none;
  policy_evidence = none;
}

abbrev queue : Database
queue = record empty_database { unprocessed_sigs = deposit ∷ [] }

abbrev arguments : ReturnArguments
arguments = record {
  source_sig = "s1";
  kind = "refund";
  timestamp = int (pos 1000);
  from_address = "sender";
  destination_address = "sender";
  amount_usdc_units = int (pos 10);
  memo = none;
  payout_memo = "refundSig:s1";
  payout_units = int (pos 8);
}

abbrev request : ReturnRequest
request = record {
  kind = refund;
  source_sig = "s1";
  timestamp = 1000;
  from_address = "sender";
  destination_address = "sender";
  amount_usdc_units = 10;
  memo = "";
  payout_memo = "refundSig:s1";
  payout_units = 8;
}

abbrev intent : FrozenIntent
intent = record {
  request = request;
  fee_units = 2;
  service_terms_version = 3;
  refund_solana_fee_units = 2;
}

abbrev evidence : Json
evidence = object (intent_fields intent)

parse-intent_example : parse_intent evidence ≡ ok intent
parse-intent_example =
    parse-intent intent (refl, omega arith, refl, refl, refl, omega arith, omega arith) refl

matches_run : intent_matches request evidence ≡ true
unfolding intent_fields parse_intent read_intent is_unambiguous find_kind require_positive
    require_nonnegative
matches_run = refl

abbrev frozen : Database
frozen = frozen_database request evidence 2000 deposit queue

transaction_run :
    prepare_in_transaction request false evidence 100 2000 queue
    ≡ ok (refused prepared request 0 100 frozen)
unfolding prepare_in_transaction prepare_row with_hold claim_capacity freeze_return
    reserve_in_transaction append_event budget_usage sum_unsettled sum_confirmed sum_payouts
    oldest_hold
transaction_run = refl

prepare_run :
    prepare arguments (int (pos 100)) none (int (pos 3)) (int (pos 2)) 2000 queue
    ≡ ok (refused prepared request 0 100 frozen)
unfolding prepare check_arguments make_request choose_evidence intent_evidence require_text strip
    strip_left strip_right is_space find_kind require_positive require_nonnegative settle_errors
    prepare_in_transaction prepare_row with_hold claim_capacity freeze_return reserve_in_transaction
    append_event budget_usage sum_unsettled sum_confirmed sum_payouts oldest_hold intent_fields
prepare_run = refl

prepare_cases_example :
    Ensures
      (λ out. Unchanged out queue ⊎ WasPrepared arguments (int (pos 100)) 2000 queue out)
      (prepare arguments (int (pos 100)) none (int (pos 3)) (int (pos 2)) 2000 queue)
prepare_cases_example =
    prepare_cases arguments (int (pos 100)) none (int (pos 3)) (int (pos 2)) 2000 queue

prepare-Exclusive_example :
    Ensures
      (λ (res, db'). Exclusive db')
      (prepare arguments (int (pos 100)) none (int (pos 3)) (int (pos 2)) 2000 queue)
prepare-Exclusive_example =
    prepare-Exclusive arguments (int (pos 100)) none (int (pos 3)) (int (pos 2)) 2000 queue
      (λ s. refl)

prepared_completes_example :
    (db₁ db₂ : Database) × (submit_return refund "s1" "t1" 2001 frozen ≡ ok (true, db₁))
    × (confirm_return refund "s1" "t1" 2002 db₁ ≡ ok (some true, db₂))
    × IsComplete request "t1" 2002 queue db₂
prepared_completes_example =
    prepared_completes request false evidence 100 2000 2001 2002 "t1"
      (refused prepared request 0 100 frozen).0 queue frozen
      (refl, omega arith, refl, refl, refl, omega arith, omega arith) matches_run tt refl
      transaction_run refl

abbrev older_hold : CapacityHold
older_hold = record {
  source_signature = "s0";
  kind = "refund";
  obligation_id = "refund:s0";
  needed_units = 50;
  used_units = 60;
  cap_units = 100;
  first_held_timestamp = 1500;
  updated_timestamp = 1500;
  reason = "rolling Solana payout cap exhausted";
  intent_evidence = evidence;
  attempt_count = 1;
}

abbrev own_hold : CapacityHold
own_hold = record older_hold {
  source_signature = "s1";
  obligation_id = "refund:s1";
  needed_units = 8;
  first_held_timestamp = 1600;
}

waits_run : waits_for_older "s1" 100 (own_hold ∷ older_hold ∷ []) ≡ true
unfolding oldest_hold
waits_run = refl

-- A cap below the older payout lets the younger one go first.
skips_run : waits_for_older "s1" 40 (own_hold ∷ older_hold ∷ []) ≡ false
unfolding oldest_hold
skips_run = refl

-- Without a cap, a return that waits behind an older hold cannot be held: the table's
-- `CHECK (cap_units > 0)` refuses the row.
uncapped_run :
    prepare_in_transaction request false evidence 0 2000
      (record queue { capacity_holds = older_hold ∷ [] })
    ≡ err integrity_error
unfolding prepare_in_transaction prepare_row with_hold claim_capacity hold_capacity write_hold
    freeze_return budget_usage sum_unsettled sum_confirmed sum_payouts oldest_hold
uncapped_run = refl

abbrev rebuilt : Database
rebuilt =
    (hold_source request (some deposit)
      (reconstruct_in_transaction "refund:s1" "solana_refund" "t1" 8 1900 queue).1)

rebuild_run : rebuild_in_transaction request "t1" 1900 2000 queue ≡ ok (true, rebuilt)
unfolding rebuild_in_transaction rebuild_row rebuild_evidence may_rebuild reconstruct_in_transaction
rebuild_run = refl

unproven_held_example : HeldWhole request queue rebuilt
unproven_held_example = unproven_held request "t1" 1900 2000 queue rebuilt refl rebuild_run
