-- ===== src/Payout/Settle.antt =====
-- Settling an obligation, rebuilding its rows from a finalized transfer, and the older payout log.
use swap_service.Base.{
  ℕ, ◌-◌, String, Bool, true, false, not, ◌&&◌, ◌||◌, Option, none, some, List, [], ◌∷◌, ◌==◌,
  string_eq, ℕ_eq, option_eq, ltb, leb, if◌then◌else◌, Result, ok, value_error, ◌>>=◌, ◌>>◌,
  require, Value, require_positive,
}
use swap_service.Database.{
  BudgetState, reserved, submitted, confirmed, released, BudgetEvent, Database,
}
use swap_service.Payout.Events.{same_state, get_event, has_event, sql_equal}
use swap_service.Payout.Budget.{require_text, append_event, budget_usage}

-- `submitted is not None and submitted[0] != signature`.
abbrev pub submitted_otherwise : Option BudgetEvent → String → Bool
submitted_otherwise none s = false
submitted_otherwise (some e) s = not (e.signature == some s)

-- `_settle_solana_payout_budget_in_transaction`.
unfoldable pub settle_in_transaction : String → String → ℕ → ℕ → Database → Result (Bool × Database)
unfolding append_event
settle_in_transaction o s units now db = elim (get_event o reserved db.budget_events) [
  | none ↦ ok (false, db)
  | some r ↦
      if not (r.amount_usdc_units == units)
      then ok (false, db)
      else if submitted_otherwise (get_event o submitted db.budget_events) s
      then ok (false, db)
      else elim (get_event o confirmed db.budget_events) [
        | some c ↦ ok ((c.signature == some s) && (c.amount_usdc_units == units), db)
        | none ↦
            if has_event o released db.budget_events
            then ok (false, db)
            else append_event
                (record {
                  obligation_id = o;
                  kind = r.kind;
                  event = confirmed;
                  amount_usdc_units = units;
                  signature = some s;
                  evidence = none;
                  timestamp = now;
                })
                db
      ]
]

-- `settle_solana_payout_budget`.
unfoldable pub settle : String → String → Value → ℕ → Database → Result (Bool × Database)
settle obligation_id signature amount now db = do
  o ← require_text obligation_id 500
  s ← require_text signature 500
  units ← require_positive amount
  settle_in_transaction o s units now db

-- `payout_budget_used`.
unfoldable pub budget_used : Value → ℕ → Database → Result ℕ
budget_used seconds now db = do
  window ← require_positive seconds
  ok (budget_usage db (now - window))

-- `record_payout`, of an amount that is a number: `int(amount_usdc_units or 0)`.
unfoldable pub record_payout : String → ℕ → Option String → ℕ → Database → Database
record_payout kind amount reference now db = record db {
  payouts =
      record { kind = kind; amount_usdc_units = amount; reference = reference; timestamp = now }
      ∷ db.payouts;
}

abbrev pub recovered : Option String
recovered = some "recovered_finalized_solana_payout"

-- A row that a rebuilt obligation gets.
abbrev pub recovered_row : String → String → BudgetState → ℕ → Option String → ℕ → BudgetEvent
recovered_row o kind state units signature t = record {
  obligation_id = o;
  kind = kind;
  event = state;
  amount_usdc_units = units;
  signature = signature;
  evidence = recovered;
  timestamp = t;
}

-- Another obligation's submission or confirmation under the same signature.
abbrev pub has_conflict : String → String → List BudgetEvent → Bool
has_conflict o s [] = false
has_conflict o s (e ∷ es) =
    (not (e.obligation_id == o)
      && (same_state e.event submitted || same_state e.event confirmed)
      && sql_equal e.signature (some s))
    || has_conflict o s es

-- `expected[event]`; a released row is not expected.
abbrev pub is_expected : String → ℕ → String → BudgetEvent → Bool
is_expected kind units s e = (e.kind == kind) && (e.amount_usdc_units == units) && elim e.event [
  | reserved ↦ e.signature == none
  | submitted ↦ e.signature == some s
  | confirmed ↦ e.signature == some s
  | released ↦ false
]

-- The loop over the obligation's rows. UNIQUE(obligation_id, event) keeps a second row of one
-- event out, which the loop refuses too.
abbrev pub all_expected : String → String → ℕ → String → List BudgetEvent → Bool
all_expected o kind units s [] = true
all_expected o kind units s (e ∷ es) =
    (if e.obligation_id == o
      then is_expected kind units s e
        && (e.evidence == none || e.evidence == recovered)
        && ltb 0 e.timestamp
        && not (has_event o e.event es)
      else true)
    && all_expected o kind units s es

-- The INSERT for an event that was not observed.
abbrev pub complete_event : BudgetEvent → List BudgetEvent → List BudgetEvent
complete_event e es = if has_event e.obligation_id e.event es then es else e ∷ es

-- The UPDATE of the confirmed row's timestamp and evidence.
unfoldable pub restamped : String → ℕ → BudgetEvent → BudgetEvent
restamped o t e =
    if (e.obligation_id == o) && same_state e.event confirmed
    then record e { timestamp = t; evidence = recovered }
    else e

abbrev pub restamp : String → ℕ → List BudgetEvent → List BudgetEvent
restamp o t [] = []
restamp o t (e ∷ es) = restamped o t e ∷ restamp o t es

-- `_reconstruct_confirmed_solana_payout_budget_in_transaction`.
unfoldable pub reconstruct_in_transaction :
    String → String → String → ℕ → ℕ → Database → Bool × Database
reconstruct_in_transaction o kind s units t db =
    let es = db.budget_events in
    if has_conflict o s es || not (all_expected o kind units s es)
    then (false, db)
    else let es₁ = complete_event (recovered_row o kind reserved units none t) es in
      let es₂ = complete_event (recovered_row o kind submitted units (some s) t) es₁ in
      let es₃ = complete_event (recovered_row o kind confirmed units (some s) t) es₂ in
      (true, record db { budget_events = restamp o t es₃ })

-- `reconstruct_confirmed_solana_payout_budget`; a refusal rolls back.
unfoldable pub reconstruct :
    String → String → Value → Value → String → ℕ → Database → Result (Bool × Database)
reconstruct obligation_id signature amount chain_timestamp kind now db = do
  o ← require_text obligation_id 500
  k ← require_text kind 100
  s ← require_text signature 500
  units ← require_positive amount
  t ← require_positive chain_timestamp
  require (leb t now) value_error
  ok (reconstruct_in_transaction o k s units t db)
