-- ===== src/Debit/Tests.antt =====
-- Runs of a debit, and its theorems at a concrete deposit.
use swap_service.Base.{
  pos, ◌≡◌, refl, List, true, none, some, [], ◌∷◌, arith, int, ok, err, value_error, require_int,
  require_positive, require_nonnegative,
}
use swap_service.Database.{empty_database, Database, PendingDeposit}
use swap_service.Debit.Intent.{
  set_unprocessed_sig_debit_intent, set_intent, intended_row, get_unprocessed_sig_reference,
  get_unprocessed_sig_nexus_amount, update_unprocessed_sig_txid, update_unprocessed_sig_status,
  set_unprocessed_sig_reference, set_reference, remove_unprocessed_sig,
}
use swap_service.Deposit.{add_unprocessed_sig}
use swap_service.Debit.History.{
  DebitCall, set_reference_call, status_call, txid_call, add_call, remove_call, run, call,
}
use swap_service.Debit.Finalize.{
  DebitEvidence, finalize_debit, finalize_found, journal_swap_fee, write_swap_fee, archive_deposit,
  confirmed_row, swap_fee, check_debit, finalize_confirmed_solana_payout,
}
use swap_service.Debit.Refusal.{debit_intent_fixed}
use swap_service.Debit.Archive.{finalize_debit_archives, IsArchived}

abbrev deposit : PendingDeposit
deposit = record {
  sig = "s1";
  timestamp = some (pos 1000);
  memo = some "nexus:account";
  from_address = some "sender";
  amount_usdc_units = some (pos 10_000_000);
  amount_usdd_units = none;
  status = some "ready for processing";
  txid = none;
  reference = none;
  policy_decision = none;
  policy_evidence = none;
}

abbrev queue : Database
queue = record empty_database { unprocessed_sigs = deposit ∷ [] }

abbrev intended : Database
intended = record queue { unprocessed_sigs = intended_row (pos 7) (pos 890_000_000) deposit ∷ [] }

intent_run :
    set_unprocessed_sig_debit_intent "s1" (int (pos 7)) (int (pos 890_000_000)) queue ≡ ok intended
unfolding set_unprocessed_sig_debit_intent set_intent require_int require_positive
intent_run = refl

-- The statuses and the transaction that the worker writes, and another reference that it tries.
abbrev history : List DebitCall
history =
    set_reference_call "s1" (int (pos 8))
    ∷ txid_call "s1" (some "t1")
    ∷ add_call "s2" (some (pos 1001)) none (some "sender") (some (pos 5)) none none
    ∷ remove_call "s2"
    ∷ status_call "s1" (some "debited, awaiting confirmation")
    ∷ []

debit_intent_fixed_example :
    (get_unprocessed_sig_reference "s1" (run history intended) ≡ some (pos 7))
    × (get_unprocessed_sig_nexus_amount "s1" (run history intended) ≡ ok (some (pos 890_000_000)))
    × (set_unprocessed_sig_debit_intent "s1"
          (int (pos 8))
          (int (pos 890_000_000))
          (run history intended)
        ≡ err value_error)
debit_intent_fixed_example =
    debit_intent_fixed "s1" (pos 7) (pos 8) 890_000_000 890_000_000 history queue intended
      intent_run (tt, (tt, (refl, (refl, (tt, tt))))) (omega arith) refl

abbrev evidence : DebitEvidence
evidence = record {
  sig = "s1";
  timestamp = pos 1000;
  amount_solana_units = pos 10_000_000;
  output_txid = some "t1";
  output_units = 890_000_000;
  nexus_destination = some "account";
  memo = some "nexus:account";
  reference = pos 7;
  output_contract_id = 0;
  fee_solana_units = 1_100_000;
}

abbrev sent : Database
sent = record queue {
  unprocessed_sigs =
      record (intended_row (pos 7) (pos 890_000_000) deposit) {
        txid = some "t1";
        status = some "debited, awaiting confirmation";
      }
      ∷ [];
}

history-run : run history intended ≡ sent
unfolding run call add_unprocessed_sig remove_unprocessed_sig set_unprocessed_sig_reference
    set_reference update_unprocessed_sig_txid update_unprocessed_sig_status require_int
history-run = refl

abbrev archived : Database
archived = record empty_database {
  processed_sigs = confirmed_row evidence ∷ [];
  fee_entries = swap_fee evidence 2000 ∷ [];
}

archive_run : finalize_debit evidence 2000 sent ≡ ok (true, archived)
unfolding finalize_debit finalize_found journal_swap_fee write_swap_fee archive_deposit
archive_run = refl

finalize_debit_archives_example :
    IsArchived evidence sent archived
    × (finalize_debit evidence 3000 archived ≡ ok (true, archived))
finalize_debit_archives_example =
    finalize_debit_archives evidence 2000 3000 sent archived archive_run

-- The evidence that the arguments of the call give.
arguments_run :
    finalize_confirmed_solana_payout
      (record {
        sig = "s1";
        timestamp = int (pos 1000);
        amount_solana_units = int (pos 10_000_000);
        output_txid = some "t1";
        output_units = int (pos 890_000_000);
        nexus_destination = some "account";
        memo = some "nexus:account";
        reference = int (pos 7);
        output_contract_id = int (pos 0);
        fee_solana_units = int (pos 1_100_000);
        nexus_decimals = int (pos 8);
      })
      2000
      sent
    ≡ ok (true, archived)
unfolding finalize_confirmed_solana_payout check_debit finalize_debit finalize_found
    journal_swap_fee write_swap_fee archive_deposit require_int require_positive require_nonnegative
arguments_run = refl
