-- ===== src/Payout/Budget.antt =====
-- The operations on the payout budget. Each takes the clock's reading; a cut-off that would be
-- negative is 0, which selects the same rows.
use swap_service.Base.{
  ℕ, ◌+◌, ◌-◌, String, Bool, true, false, not, ◌&&◌, ◌||◌, none, some, List, [], ◌∷◌, ◌==◌,
  string_eq, ℕ_eq, option_eq, value_eq, ltb, if◌then◌else◌, Result, ok, err, value_error, ◌>>=◌,
  Value, require_positive, require_nonnegative, strip, is_empty, text_length, ◌++◌, decimal, null,
}
use swap_service.Database.{
  reserved, submitted, confirmed, released, BudgetEvent, PendingCredit, ReturnedDeposit, Database,
}
use swap_service.Payout.Events.{
  get_event, has_event, insert_event, is_settled, sum_unsettled, sum_confirmed, sum_payouts,
}

-- `_require_solana_payout_budget_text`.
unfoldable pub require_text : String → ℕ → Result String
require_text value max_length =
    let t = strip value in
    if is_empty t || ltb max_length (text_length t) then err value_error else ok t

-- `_payout_budget_usage_in_transaction`.
unfoldable pub budget_usage : Database → ℕ → ℕ
budget_usage db cutoff =
    sum_unsettled db.budget_events db.budget_events
    + sum_confirmed cutoff db.budget_events
    + sum_payouts db.budget_events cutoff db.payouts

-- One INSERT into the event table.
unfoldable pub append_event : BudgetEvent → Database → Result (Bool × Database)
append_event e db = do
  events ← insert_event e db.budget_events
  ok (true, record db { budget_events = events })

-- `_reserve_solana_payout_budget_in_transaction`.
unfoldable pub reserve_in_transaction :
    String → String → ℕ → ℕ → ℕ → ℕ → Database → Result (Bool × Database)
unfolding append_event
reserve_in_transaction o kind amount cap window now db =
    if has_event o reserved db.budget_events
    then ok (false, db)
    else if ltb 0 cap && ltb cap (budget_usage db (now - window) + amount)
    then ok (false, db)
    else append_event
        (record {
          obligation_id = o;
          kind = kind;
          event = reserved;
          amount_usdc_units = amount;
          signature = none;
          evidence = none;
          timestamp = now;
        })
        db

-- `reserve_solana_payout_budget`.
unfoldable pub reserve :
    String → String → Value → Value → Value → ℕ → Database → Result (Bool × Database)
reserve obligation_id kind amount cap window now db = do
  o ← require_text obligation_id 500
  k ← require_text kind 100
  units ← require_positive amount
  cap_units ← require_nonnegative cap
  window_sec ← require_positive window
  reserve_in_transaction o k units cap_units window_sec now db

-- The rows of unprocessed_txids that fix an exact payout for the obligation.
abbrev has_payout_credit : String → List PendingCredit → Bool
has_payout_credit o [] = false
has_payout_credit o (c ∷ cs) =
    ((("nexus:" ++ c.txid ++ ":" ++ decimal c.contract_id) == o)
      && not (c.payout_solana_units == null))
    || has_payout_credit o cs

-- The rows of refunded_sigs or quarantined_sigs for the obligation.
abbrev has_prefixed : String → String → List ReturnedDeposit → Bool
has_prefixed prefix o [] = false
has_prefixed prefix o (r ∷ rs) = ((prefix ++ r.sig) == o) || has_prefixed prefix o rs

-- `has_durable_send_intent` of the release.
unfoldable pub has_send_intent : String → Database → Bool
has_send_intent o db =
    has_prefixed "refund:" o db.refunded_sigs
    || has_prefixed "quarantine:" o db.quarantined_sigs
    || has_payout_credit o db.unprocessed_txids

unfoldable pub release_in_transaction : String → String → ℕ → Database → Result (Bool × Database)
unfolding append_event
release_in_transaction o reason now db = elim (get_event o reserved db.budget_events) [
  | none ↦ ok (false, db)
  | some r ↦
      if has_send_intent o db
        || has_event o submitted db.budget_events
        || has_event o confirmed db.budget_events
        || has_event o released db.budget_events
      then ok (false, db)
      else append_event
          (record {
            obligation_id = o;
            kind = r.kind;
            event = released;
            amount_usdc_units = r.amount_usdc_units;
            signature = none;
            evidence = some reason;
            timestamp = now;
          })
          db
]

-- `release_solana_payout_budget`.
unfoldable pub release : String → String → ℕ → Database → Result (Bool × Database)
unfolding release_in_transaction
release obligation_id reason now db = do
  o ← require_text obligation_id 500
  why ← require_text reason 1000
  release_in_transaction o why now db

unfoldable pub submit_in_transaction : String → String → ℕ → Database → Result (Bool × Database)
unfolding append_event
submit_in_transaction o signature now db = elim (get_event o reserved db.budget_events) [
  | none ↦ ok (false, db)
  | some r ↦
      if is_settled db.budget_events o
      then ok (false, db)
      else elim (get_event o submitted db.budget_events) [
        | some prior ↦ ok (prior.signature == some signature, db)
        | none ↦
            append_event
              (record {
                obligation_id = o;
                kind = r.kind;
                event = submitted;
                amount_usdc_units = r.amount_usdc_units;
                signature = some signature;
                evidence = none;
                timestamp = now;
              })
              db
      ]
]

-- `record_solana_payout_submission`.
unfoldable pub record_submission : String → String → ℕ → Database → Result (Bool × Database)
unfolding submit_in_transaction
record_submission obligation_id signature now db = do
  o ← require_text obligation_id 500
  s ← require_text signature 500
  submit_in_transaction o s now db
