-- ===== src/Disbursement/Tests.antt =====
-- Runs of the payout of Nexus credits, and its theorems at concrete databases.
use swap_service.Base.{
  pos, String, ◌≡◌, refl, ◌≢◌, true, false, none, some, [], ◌∷◌, ok, int, null, real, strip,
  require_positive, require_nonnegative, ◌*ℤ◌, decimal, decimal_digits, digit,
}
use swap_service.Database.{
  empty_database, Database, BudgetEvent, reserved, PendingCredit, TransferRequest, TransferIntent,
  prepared, FeeEntry,
}
use swap_service.Credit.{get_pending, has_fee_evidence, has_terminal}
use swap_service.Payout.{
  settle_in_transaction, reserve_in_transaction, budget_usage, sum_unsettled, sum_confirmed,
  sum_payouts,
}
use swap_service.Transfer.{
  create_in_transaction, has_exact_held_source, is_held_for, intent_id, transfer_reference,
}
use swap_service.Disbursement.{
  PayoutRequest, CreditEvidence, PayoutEvidence, prepare_in_transaction, claim_credit,
  nexus_obligation, sending_row, is_ready, has_intent, finalize_credit_in_transaction,
  finalize_nexus_credit, payout_evidence, settle_and_archive, journal_fee, archive, same_number,
  mentions_fee, terminal_row,
}
use swap_service.Disbursement.Exclusive.{
  prepare_claims, prepare_blocks_transfer, transfer_blocks_prepare,
}
use swap_service.Disbursement.Repeat.{finalize_again}
use swap_service.Disbursement.Outcomes.{Archived, finalize_archives}
use swap_service.Disbursement.Refused.{OnlyFee, finalize_credit_refused}

abbrev empty : Database
empty = empty_database

abbrev waiting : PendingCredit
waiting = record {
  txid = "tx";
  contract_id = pos 0;
  timestamp = int (pos 50);
  amount_usdd = real (pos 1) (pos 0);
  from_address = some "alice";
  to_address = some "treasury";
  owner_from_address = some "alice_owner";
  confirmations_credit = int (pos 12);
  status = some "ready for processing";
  receival_account = some "sol1";
  sig = none;
  amount_usdd_units = int (pos 500);
  hold_reason = none;
  payout_solana_units = null;
  payout_fee_nexus_units = null;
}

abbrev one_waiting : Database
one_waiting = record empty { unprocessed_txids = waiting ∷ [] }

abbrev payout : PayoutRequest
payout = record {
  txid = "tx";
  contract_id = pos 0;
  receival_account = "sol1";
  amount_usdd_units = 500;
  payout_solana_units = 490;
  payout_fee_nexus_units = 10;
  cap = some 1000;
  hold = none;
}

abbrev reservation : BudgetEvent
reservation = record {
  obligation_id = nexus_obligation "tx" (pos 0);
  kind = "nexus_payout";
  event = reserved;
  amount_usdc_units = 490;
  signature = none;
  evidence = none;
  timestamp = 100;
}

abbrev one_sending : Database
one_sending = record one_waiting {
  unprocessed_txids = sending_row payout waiting ∷ [];
  budget_events = reservation ∷ [];
}

prepare_run : prepare_in_transaction payout 100 one_waiting ≡ ok (true, one_sending)
unfolding prepare_in_transaction claim_credit reserve_in_transaction budget_usage sum_unsettled
    sum_confirmed sum_payouts
prepare_run = refl

-- A credit with no status and a request with no hold status: Python's `in` finds None in the tuple, SQL's
-- IN does not, and the reservation stays.
abbrev unnamed : PendingCredit
unnamed = record waiting { status = none }

no_status_run :
    prepare_in_transaction payout 100 (record empty { unprocessed_txids = unnamed ∷ [] })
    ≡ ok
        (false, record empty { unprocessed_txids = unnamed ∷ []; budget_events = reservation ∷ [] })
unfolding prepare_in_transaction claim_credit reserve_in_transaction budget_usage sum_unsettled
    sum_confirmed sum_payouts
no_status_run = refl

prepare_claims_example :
    (c : PendingCredit) × (get_pending "tx" (pos 0) one_waiting.unprocessed_txids ≡ some c)
    × (is_ready payout c ≡ true)
    × (has_fee_evidence "tx" (pos 0) one_waiting.fee_entries ≡ false)
    × (has_intent "tx" (pos 0) one_waiting.transfer_intents ≡ false)
    × (has_terminal "tx" (pos 0) one_waiting ≡ false)
    × (get_pending "tx" (pos 0) one_sending.unprocessed_txids ≡ some (sending_row payout c))
    × (one_sending.transfer_intents ≡ one_waiting.transfer_intents)
prepare_claims_example = prepare_claims payout 100 one_waiting one_sending prepare_run

abbrev digest : String → String
digest s = "0123456789abcdef0123456789abcdef"

abbrev refund : TransferRequest
refund = record {
  kind = "refund";
  source_txid = "tx";
  source_contract_id = pos 0;
  from_address = "treasury";
  to_address = "alice";
  amount_usdd_units = 500;
}

abbrev created : TransferIntent
created = record {
  id = intent_id digest "tx" (pos 0);
  request = refund;
  reference = transfer_reference (intent_id digest "tx" (pos 0));
  status = prepared;
  remote_txid = none;
  contract_id = none;
  created_timestamp = 100;
  last_attempt_timestamp = none;
  resolved_timestamp = none;
}

prepare_blocks_transfer_example :
    create_in_transaction digest refund 170 one_sending ≢ ok (created, one_sending)
prepare_blocks_transfer_example =
    prepare_blocks_transfer digest payout refund 100 170 one_waiting one_sending one_sending created
      prepare_run refl refl

abbrev one_held : Database
one_held = record empty {
  unprocessed_txids = record waiting { status = some "refund held for operator review" } ∷ [];
}

abbrev one_created : Database
one_created = record one_held { transfer_intents = created ∷ [] }

create_run : create_in_transaction digest refund 100 one_held ≡ ok (created, one_created)
unfolding create_in_transaction has_exact_held_source is_held_for
create_run = refl

transfer_blocks_prepare_example :
    prepare_in_transaction payout 170 one_created ≡ ok (false, one_created)
transfer_blocks_prepare_example =
    transfer_blocks_prepare digest payout refund 100 170 one_held one_created created create_run
      refl refl

-- A sent payout without a reservation, and its archive.
abbrev one_sent : Database
one_sent = record empty {
  unprocessed_txids = record (sending_row payout waiting) { sig = some "s1" } ∷ [];
}

abbrev evidence : CreditEvidence
evidence = record {
  txid = "tx";
  contract_id = pos 0;
  timestamp = int (pos 50);
  amount_usdd = int (pos 1);
  amount_usdd_units = 500;
  from_address = "alice";
  to_address = "treasury";
  owner = "alice_owner";
  sig = "s1";
  status = "processed";
  fee_kind = some "flat_fee";
  fee_nexus_units = 10;
}

abbrev sent_payout : PayoutEvidence
sent_payout = record { units = int (pos 490); fee = int (pos 10); destination = some "sol1" }

abbrev fee_row : FeeEntry
fee_row = record {
  sig = none;
  txid = some "tx";
  kind = "flat_fee";
  amount_usdc_units = none;
  amount_usdd_units = some (pos 10);
  contract_id = pos 0;
  timestamp = 200;
}

abbrev one_archived : Database
one_archived = record empty {
  processed_txids = terminal_row evidence sent_payout ∷ [];
  fee_entries = fee_row ∷ [];
}

finalize_run : finalize_credit_in_transaction evidence 200 one_sent ≡ ok (true, one_archived)
unfolding finalize_credit_in_transaction payout_evidence settle_and_archive journal_fee archive
    same_number ◌*ℤ◌
finalize_run = refl

finalize_archives_example : Archived evidence one_sent one_archived
finalize_archives_example =
    finalize_archives evidence 200 one_sent one_archived refl refl finalize_run

finalize_public_run :
    finalize_nexus_credit "tx"
      (int (pos 0))
      (int (pos 50))
      (int (pos 1))
      (int (pos 500))
      "alice"
      "treasury"
      "alice_owner"
      "s1"
      "processed"
      (some "flat_fee")
      (int (pos 10))
      200
      one_sent
    ≡ ok (true, one_archived)
unfolding finalize_nexus_credit finalize_credit_in_transaction payout_evidence settle_and_archive
    journal_fee archive same_number ◌*ℤ◌ strip require_positive require_nonnegative mentions_fee
finalize_public_run = refl

finalize_again_example :
    finalize_nexus_credit "tx"
      (int (pos 0))
      (int (pos 50))
      (int (pos 1))
      (int (pos 500))
      "alice"
      "treasury"
      "alice_owner"
      "s1"
      "processed"
      (some "flat_fee")
      (int (pos 10))
      900
      one_archived
    ≡ ok (true, one_archived)
finalize_again_example =
    finalize_again "tx" (int (pos 0)) (int (pos 50)) (int (pos 1)) (int (pos 500)) "alice"
      "treasury" "alice_owner" "s1" "processed" (some "flat_fee") (int (pos 10)) 200 900 one_sent
      one_archived finalize_public_run

-- The reservation is of another amount, so the settlement refuses after the fee is journaled.
abbrev one_mismatched : Database
one_mismatched = record one_sent {
  budget_events = record reservation { amount_usdc_units = 400 } ∷ [];
}

abbrev only_fee : Database
only_fee = record one_mismatched { fee_entries = fee_row ∷ [] }

mismatched_run : finalize_credit_in_transaction evidence 200 one_mismatched ≡ ok (false, only_fee)
unfolding finalize_credit_in_transaction payout_evidence settle_and_archive journal_fee archive
    same_number ◌*ℤ◌ settle_in_transaction decimal decimal_digits digit
mismatched_run = refl

finalize_credit_refused_example : OnlyFee evidence 200 one_mismatched only_fee
finalize_credit_refused_example =
    finalize_credit_refused evidence 200 one_mismatched only_fee mismatched_run
