-- ===== src/Payout/Events.antt =====
-- Queries on solana_payout_budget_events.
use swap_service.Base.{
  ℕ, ◌+◌, String, Bool, true, false, not, ◌&&◌, ◌||◌, Option, none, some, List, [], ◌∷◌, ◌==◌,
  string_eq, ℕ_eq, leb, is_some, if◌then◌else◌, Result, ok, err, integrity_error,
}
use swap_service.Database.{
  BudgetState, reserved, submitted, confirmed, released, BudgetEvent, Payout,
}

abbrev pub same_state : BudgetState → BudgetState → Bool
same_state reserved reserved = true
same_state submitted submitted = true
same_state confirmed confirmed = true
same_state released released = true
same_state _ _ = false

-- `SELECT … WHERE obligation_id = ? AND event = ?`.
abbrev pub get_event : String → BudgetState → List BudgetEvent → Option BudgetEvent
get_event o s [] = none
get_event o s (e ∷ es) =
    if (e.obligation_id == o) && same_state e.event s then some e else get_event o s es

abbrev pub has_event : String → BudgetState → List BudgetEvent → Bool
has_event o s es = is_some (get_event o s es)

-- An insertion under `UNIQUE(obligation_id, event)`.
abbrev pub insert_event : BudgetEvent → List BudgetEvent → Result (List BudgetEvent)
insert_event e es =
    if has_event e.obligation_id e.event es then err integrity_error else ok (e ∷ es)

-- `terminal.event IN ('confirmed', 'released')`.
abbrev pub is_settled : List BudgetEvent → String → Bool
is_settled es o = has_event o confirmed es || has_event o released es

abbrev counted : Bool → ℕ → ℕ
counted b n = if b then n else 0

-- The reservations among the last rows that no row of `all` settles.
unfoldable pub sum_unsettled : List BudgetEvent → List BudgetEvent → ℕ
sum_unsettled all [] = 0
sum_unsettled all (e ∷ es) =
    counted (same_state e.event reserved && not (is_settled all e.obligation_id))
      e.amount_usdc_units
    + sum_unsettled all es

unfoldable pub sum_confirmed : ℕ → List BudgetEvent → ℕ
sum_confirmed cutoff [] = 0
sum_confirmed cutoff (e ∷ es) =
    counted (same_state e.event confirmed && leb cutoff e.timestamp) e.amount_usdc_units
    + sum_confirmed cutoff es

-- SQL's `a = b`, which no NULL satisfies.
abbrev pub sql_equal : Option String → Option String → Bool
sql_equal (some a) (some b) = a == b
sql_equal _ _ = false

-- Whether a confirmed row stands for the same transfer as a row of payouts.
abbrev pub is_represented : Payout → List BudgetEvent → Bool
is_represented p [] = false
is_represented p (e ∷ es) =
    (same_state e.event confirmed
      && sql_equal e.signature p.reference
      && (e.amount_usdc_units == p.amount_usdc_units))
    || is_represented p es

unfoldable pub sum_payouts : List BudgetEvent → ℕ → List Payout → ℕ
sum_payouts all cutoff [] = 0
sum_payouts all cutoff (p ∷ ps) =
    counted (leb cutoff p.timestamp && not (is_represented p all)) p.amount_usdc_units
    + sum_payouts all cutoff ps
