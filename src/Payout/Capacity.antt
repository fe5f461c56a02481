-- ===== src/Payout/Capacity.antt =====
-- How each kind of row changes the capacity that the ledger counts as used.
use swap_service.Base.{
  ℕ, ◌+◌, ◌≤◌, String, ◌≡◌, refl, true, false, Option, none, some, List, [], ◌∷◌, arith, ◌⊎◌,
  string_eq, str_eq_iff,
}
use swap_service.Database.{BudgetState, reserved, confirmed, released, BudgetEvent, Payout}
use swap_service.Payout.Events.{
  get_event, is_settled, sum_unsettled, sum_confirmed, sum_payouts, same_state,
}
use swap_service.Payout.WellFormed.{WellFormed}

abbrev pub amount_of : Option BudgetEvent → ℕ
amount_of none = 0
amount_of (some r) = r.amount_usdc_units

-- A row that settles nothing leaves the sum over the other rows alone.
pub sum_unsettled-open :
    (e : BudgetEvent) (all es : List BudgetEvent)
    → same_state e.event confirmed ≡ false
    → same_state e.event released ≡ false
    → sum_unsettled (e ∷ all) es ≡ sum_unsettled all es
unfolding sum_unsettled
sum_unsettled-open e all [] c r = refl
sum_unsettled-open e all (f ∷ es) c r = ground (arith, sum_unsettled-open e all es c r)

pub get_event-same :
    (o p : String) (s : BudgetState) (es : List BudgetEvent)
    → o ≡ p
    → get_event o s es ≡ get_event p s es
get_event-same o p s es h = λ i. get_event (h i) s es

-- A row that settles an open obligation takes its reservation out of the sum, and no other.
pub sum_unsettled-settled :
    (e : BudgetEvent) (all es : List BudgetEvent)
    → WellFormed es
    → (same_state e.event confirmed ≡ true) ⊎ (same_state e.event released ≡ true)
    → is_settled all e.obligation_id ≡ false
    → sum_unsettled (e ∷ all) es + amount_of (get_event e.obligation_id reserved es)
      ≡ sum_unsettled all es
unfolding sum_unsettled
sum_unsettled-settled e all [] w k o = refl
sum_unsettled-settled e all (f ∷ es) w k o = ground (
  arith,
  str_eq_iff f.obligation_id e.obligation_id,
  str_eq_iff e.obligation_id f.obligation_id,
  sum_unsettled-settled e all es w.1 k o,
)

-- A new confirmation adds its amount where its time is within the window, and nothing else does.
pub sum_confirmed-other :
    (cutoff : ℕ) (e : BudgetEvent) (es : List BudgetEvent)
    → same_state e.event confirmed ≡ false
    → sum_confirmed cutoff (e ∷ es) ≡ sum_confirmed cutoff es
unfolding sum_confirmed
sum_confirmed-other cutoff e es h = ground arith

pub sum_confirmed-new :
    (cutoff : ℕ) (e : BudgetEvent) (es : List BudgetEvent)
    → same_state e.event confirmed ≡ true
    → cutoff ≤ e.timestamp
    → sum_confirmed cutoff (e ∷ es) ≡ e.amount_usdc_units + sum_confirmed cutoff es
unfolding sum_confirmed
sum_confirmed-new cutoff e es h t = ground arith

-- A row can only show more of the older log's transfers to be counted already.
pub sum_payouts-le :
    (e : BudgetEvent) (all : List BudgetEvent) (cutoff : ℕ) (ps : List Payout)
    → sum_payouts (e ∷ all) cutoff ps ≤ sum_payouts all cutoff ps
unfolding sum_payouts
sum_payouts-le e all cutoff [] = omega arith
sum_payouts-le e all cutoff (p ∷ ps) = ground (arith, sum_payouts-le e all cutoff ps)

pub sum_payouts-other :
    (e : BudgetEvent) (all : List BudgetEvent) (cutoff : ℕ) (ps : List Payout)
    → same_state e.event confirmed ≡ false
    → sum_payouts (e ∷ all) cutoff ps ≡ sum_payouts all cutoff ps
unfolding sum_payouts
sum_payouts-other e all cutoff [] h = refl
sum_payouts-other e all cutoff (p ∷ ps) h = ground (arith, sum_payouts-other e all cutoff ps h)

-- An open reservation is part of the sum, whatever the window.
pub amount-le-sum_unsettled :
    (o : String) (all es : List BudgetEvent)
    → is_settled all o ≡ false
    → amount_of (get_event o reserved es) ≤ sum_unsettled all es
unfolding sum_unsettled
amount-le-sum_unsettled o all [] h = omega arith
amount-le-sum_unsettled o all (e ∷ es) h =
    ground (arith, str_eq_iff e.obligation_id o, amount-le-sum_unsettled o all es h)
