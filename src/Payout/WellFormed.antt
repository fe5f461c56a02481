-- ===== src/Payout/WellFormed.antt =====
-- The invariant of the event table, and what it says of one obligation's rows.
use swap_service.Base.{
  String, ◌≡◌, refl, Option, none, some, List, [], ◌∷◌, arith, string_eq, str_eq_iff,
}
use swap_service.Database.{BudgetState, reserved, submitted, confirmed, released, BudgetEvent}
use swap_service.Payout.Events.{get_event}

-- A reservation of the same kind and amount stands below the row.
abbrev pub IsBacked : BudgetEvent → Option BudgetEvent → Type 0
IsBacked e none = ⊥
IsBacked e (some r) = (r.amount_usdc_units ≡ e.amount_usdc_units) × (r.kind ≡ e.kind)

abbrev pub Agrees : BudgetEvent → Option BudgetEvent → Type 0
Agrees e none = Unit
Agrees e (some f) = f.signature ≡ e.signature

abbrev pub FitsAs : BudgetState → BudgetEvent → List BudgetEvent → Type 0
FitsAs reserved e es =
    (get_event e.obligation_id reserved es ≡ none)
    × (get_event e.obligation_id submitted es ≡ none)
    × (get_event e.obligation_id confirmed es ≡ none)
    × (get_event e.obligation_id released es ≡ none)
FitsAs submitted e es =
    IsBacked e (get_event e.obligation_id reserved es)
    × (get_event e.obligation_id submitted es ≡ none)
    × Agrees e (get_event e.obligation_id confirmed es)
    × (get_event e.obligation_id released es ≡ none)
FitsAs confirmed e es =
    IsBacked e (get_event e.obligation_id reserved es)
    × Agrees e (get_event e.obligation_id submitted es)
    × (get_event e.obligation_id confirmed es ≡ none)
    × (get_event e.obligation_id released es ≡ none)
FitsAs released e es =
    IsBacked e (get_event e.obligation_id reserved es)
    × (get_event e.obligation_id submitted es ≡ none)
    × (get_event e.obligation_id confirmed es ≡ none)
    × (get_event e.obligation_id released es ≡ none)

-- Every row stands on a matching reservation, no event is recorded twice for an obligation, one
-- signature serves the submission and the confirmation, and a released obligation has neither.
abbrev pub WellFormed : List BudgetEvent → Type 0
WellFormed [] = Unit
WellFormed (e ∷ es) = FitsAs e.event e es × WellFormed es

pub unreserved :
    (o : String) (es : List BudgetEvent)
    → WellFormed es
    → get_event o reserved es ≡ none
    → (get_event o submitted es ≡ none)
      × (get_event o confirmed es ≡ none)
      × (get_event o released es ≡ none)
unreserved o [] w h = (refl, refl, refl)
unreserved o (e ∷ es) w h = ground (arith, str_eq_iff e.obligation_id o, unreserved o es w.1)
