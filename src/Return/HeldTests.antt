-- ===== src/Return/HeldTests.antt =====
-- Runs of the readings of capacity holds.
use swap_service.Base.{
  pos, ◌≡◌, refl, none, some, [], ◌∷◌, inl, ok, require_positive, require_nonnegative, true,
}
use swap_service.Database.{empty_database, Database, PendingDeposit, CapacityHold, object}
use swap_service.Return.Kinds.{refund, find_kind}
use swap_service.Return.Intent.{FrozenIntent, intent_fields, parse_intent, read_intent}
use swap_service.Return.Holds.{malformed_evidence, get_hold}
use swap_service.Return.Claim.{with_hold, claim_capacity}
use swap_service.Deposit.{get_deposit}
use swap_service.Return.Retried.{loaded_retries}
use swap_service.Return.Held.{
  source_matches, found_hold, held_intent, no_intent, get_solana_payout_capacity_holds, check_holds,
  check_hold, oldest_first, of_kind,
}

abbrev intent : FrozenIntent
intent = record {
  request = record {
    kind = refund;
    source_sig = "s1";
    timestamp = 1000;
    from_address = "sender";
    destination_address = "sender";
    amount_usdc_units = 10;
    memo = "";
    payout_memo = "refundSig:s1";
    payout_units = 8;
  };
  fee_units = 2;
  service_terms_version = 3;
  refund_solana_fee_units = 2;
}

abbrev hold : CapacityHold
hold = record {
  source_signature = "s1";
  kind = "refund";
  obligation_id = "refund:s1";
  needed_units = 8;
  used_units = 60;
  cap_units = 100;
  first_held_timestamp = 1600;
  updated_timestamp = 1700;
  reason = "rolling Solana payout cap exhausted";
  intent_evidence = object (intent_fields intent);
  attempt_count = 1;
}

abbrev source : PendingDeposit
source = record {
  sig = "s1";
  timestamp = some (pos 1000);
  memo = none;
  from_address = some "sender";
  amount_usdc_units = some (pos 10);
  amount_usdd_units = none;
  status = some "refund capacity held";
  txid = none;
  reference = none;
  policy_decision = none;
  policy_evidence = none;
}

abbrev queue : Database
queue = record empty_database { unprocessed_sigs = source ∷ []; capacity_holds = hold ∷ [] }

loads_run : found_hold refund "s1" (some hold) queue ≡ inl (intent, object (intent_fields intent))
unfolding found_hold held_intent parse_intent read_intent intent_fields require_positive
    require_nonnegative
loads_run = refl

-- A hold without attempts is malformed.
malformed_run :
    found_hold refund "s1" (some (record hold { attempt_count = 0 })) queue
    ≡ no_intent malformed_evidence 8 60 100
unfolding found_hold held_intent parse_intent read_intent intent_fields require_positive
    require_nonnegative
malformed_run = refl

listing_run : get_solana_payout_capacity_holds (some "refund") 5 queue ≡ ok (hold ∷ [])
unfolding get_solana_payout_capacity_holds check_holds check_hold oldest_first of_kind find_kind
    parse_intent read_intent intent_fields require_positive require_nonnegative
listing_run = refl

loaded_retries_example :
    (h : CapacityHold) × (get_hold "s1" queue.capacity_holds ≡ some h)
    × (source_matches refund intent (get_deposit "s1" queue.unprocessed_sigs) ≡ true)
    × (with_hold intent.request true (object (intent_fields intent)) (some h) 100 2000 source queue
        ≡ claim_capacity intent.request
            (object (intent_fields intent))
            (some h)
            100
            2000
            source
            queue)
loaded_retries_example =
    loaded_retries refund "s1" intent (object (intent_fields intent)) true 100 2000 source queue
      loads_run
