-- ===== src/Payout/Tests.antt =====
-- Runs of the payout budget, and its theorems at concrete ledgers.
use swap_service.Base.{
  ℕ, ◌+◌, ◌-◌, ◌≤◌, String, ◌≡◌, refl, ◌≢◌, ◌⊎◌, true, false, none, some, [], ◌∷◌, arith, ok, int,
  pos, strip, require_positive, require_nonnegative,
}
use swap_service.Database.{
  empty_database, Database, BudgetEvent, reserved, submitted, confirmed, released,
}
use swap_service.Payout.{
  reserve, release, record_submission, settle, budget_usage, reserve_in_transaction,
  submit_in_transaction, settle_in_transaction, require_text, has_send_intent,
  release_in_transaction, sum_unsettled, sum_confirmed, sum_payouts,
}
use swap_service.Payout.WellFormed.{WellFormed}
use swap_service.Payout.Limits.{
  reserve_granted, settle_usage-le, unsettled_counts, release_usage, Released,
}
use swap_service.Payout.History.{submits, settles, releases, run, run-WellFormed}
use swap_service.Payout.Lifecycle.{reserve_once, submission_blocks_release}

abbrev empty : Database
empty = empty_database

abbrev held : BudgetEvent
held = record {
  obligation_id = "refund:a";
  kind = "solana_refund";
  event = reserved;
  amount_usdc_units = 70;
  signature = none;
  evidence = none;
  timestamp = 1000;
}

abbrev sent : BudgetEvent
sent = record held { event = submitted; signature = some "s1"; timestamp = 1001 }

abbrev one_held : Database
one_held = record empty { budget_events = held ∷ [] }

abbrev one_sent : Database
one_sent = record empty { budget_events = sent ∷ held ∷ [] }

reserve_run :
    reserve " refund:a " "solana_refund" (int (pos 70)) (int (pos 100)) (int (pos 86400)) 1000 empty
    ≡ ok (true, one_held)
unfolding reserve reserve_in_transaction require_text budget_usage strip sum_unsettled sum_confirmed
    sum_payouts require_positive require_nonnegative
reserve_run = refl

over_cap :
    reserve "refund:b" "solana_refund"
      (int (pos 31))
      (int (pos 100))
      (int (pos 86400))
      1000
      one_held
    ≡ ok (false, one_held)
unfolding reserve reserve_in_transaction require_text budget_usage strip sum_unsettled sum_confirmed
    sum_payouts require_positive require_nonnegative
over_cap = refl

submit_run : record_submission "refund:a" "s1" 1001 one_held ≡ ok (true, one_sent)
unfolding record_submission submit_in_transaction require_text strip
submit_run = refl

one_held-WellFormed : WellFormed one_held.budget_events
one_held-WellFormed = ((refl, refl, refl, refl), tt)

one_sent-WellFormed : WellFormed one_sent.budget_events
one_sent-WellFormed = (((refl, refl), refl, tt, refl), one_held-WellFormed)

reserve_granted_example :
    (budget_usage one_held 900 ≡ budget_usage empty 900 + 70)
    × (◌≡◌ {A = ℕ} 100 0 ⊎ (budget_usage one_held (1000 - 86400) ≤ 100))
reserve_granted_example =
    reserve_granted " refund:a " "solana_refund" 70 100 86400 1000 900 empty one_held tt reserve_run

run-WellFormed_example :
    WellFormed
      (run
        ((1001, submits "refund:a" "s1") ∷ (1002, releases "refund:a" "late") ∷ [])
        one_held).budget_events
run-WellFormed_example =
    run-WellFormed ((1001, submits "refund:a" "s1") ∷ (1002, releases "refund:a" "late") ∷ [])
      one_held one_held-WellFormed

abbrev one_settled : Database
one_settled = record empty {
  budget_events = record sent { event = confirmed; timestamp = 1002 } ∷ sent ∷ held ∷ [];
}

settle_run : settle "refund:a" "s1" (int (pos 70)) 1002 one_sent ≡ ok (true, one_settled)
unfolding settle settle_in_transaction require_text strip require_positive
settle_run = refl

settle_usage-le_example : budget_usage one_settled 900 ≤ budget_usage one_sent 900
settle_usage-le_example =
    settle_usage-le "refund:a" "s1" (int (pos 70)) 1002 900 one_sent one_settled true
      one_sent-WellFormed (omega arith) settle_run

abbrev one_released : Database
one_released = record empty {
  budget_events =
      record held { event = released; evidence = some "cancelled"; timestamp = 1001 } ∷ held ∷ [];
}

release_run : release "refund:a" "cancelled" 1001 one_held ≡ ok (true, one_released)
unfolding release release_in_transaction require_text has_send_intent strip
release_run = refl

release_usage_example :
    (o : String) × (require_text "refund:a" 500 ≡ ok o)
    × Released o 900 one_held (true, one_released)
release_usage_example =
    release_usage "refund:a" "cancelled" 1001 900 one_held one_released true one_held-WellFormed
      release_run

unsettled_counts_example : 70 ≤ budget_usage one_sent 5000
unsettled_counts_example = unsettled_counts "refund:a" held one_sent 5000 refl refl

reserve_plain_run :
    reserve "refund:a" "solana_refund" (int (pos 70)) (int (pos 100)) (int (pos 86400)) 1000 empty
    ≡ ok (true, one_held)
unfolding reserve reserve_in_transaction require_text budget_usage strip sum_unsettled sum_confirmed
    sum_payouts require_positive require_nonnegative
reserve_plain_run = refl

reserve_once_example :
    reserve "refund:a" "solana_refund"
      (int (pos 1))
      (int (pos 0))
      (int (pos 60))
      1003
      (run ((1001, submits "refund:a" "s1") ∷ []) one_held)
    ≢ ok (true, one_held)
reserve_once_example =
    reserve_once "refund:a" "solana_refund" "solana_refund" (int (pos 70)) (int (pos 100))
      (int (pos 86400)) (int (pos 1)) (int (pos 0)) (int (pos 60)) 1000 1003 empty one_held one_held
      ((1001, submits "refund:a" "s1") ∷ []) reserve_plain_run

submission_blocks_release_example :
    release "refund:a" "late" 1003
      (run ((1002, settles "refund:a" "s1" (int (pos 70))) ∷ []) one_sent)
    ≢ ok (true, one_sent)
submission_blocks_release_example =
    submission_blocks_release "refund:a" "s1" "late" 1001 1003 one_held one_sent one_sent
      ((1002, settles "refund:a" "s1" (int (pos 70))) ∷ []) submit_run
