-- ===== src/Payout/Preserve.antt =====
-- The invariant of the event table for each operation on the payout budget.
use swap_service.Base.{
  ℕ, String, ◌≡◌, refl, sym, ap, subst, ◌∙◌, ◌≢◌, Bool, Option, none, some, List, [], ◌∷◌, arith,
  string_eq, option_beq_iff, Bool-cases, Option-cases, inl, inr, ◌==◌, ◌&&◌, Result, ok, err,
  integrity_error,
}
use mathlib.Core.Option
use swap_service.Database.{
  BudgetState, reserved, submitted, confirmed, released, BudgetEvent, Database,
}
use swap_service.Payout.{
  get_event, reserve_in_transaction, release_in_transaction, submit_in_transaction, restamp,
  restamped, same_state, settle_in_transaction,
}
use swap_service.Payout.WellFormed.{WellFormed, FitsAs, IsBacked, Agrees, unreserved}

-- A result that keeps the table well formed and is no integrity error.
abbrev pub Sound : Result (Bool × Database) → Type 0
Sound (ok (done, db)) = WellFormed db.budget_events
Sound (err e) = e ≢ integrity_error

pub reserve_in_transaction-Sound :
    (o k : String) (units cap window now : ℕ) (db : Database)
    → WellFormed db.budget_events
    → Sound (reserve_in_transaction o k units cap window now db)
unfolding reserve_in_transaction
reserve_in_transaction-Sound o k units cap window now db w =
    ground (arith, unreserved o db.budget_events w)

pub release_in_transaction-Sound :
    (o reason : String) (now : ℕ) (db : Database)
    → WellFormed db.budget_events
    → Sound (release_in_transaction o reason now db)
unfolding release_in_transaction
release_in_transaction-Sound o reason now db w = ground arith

pub submit_in_transaction-Sound :
    (o s : String) (now : ℕ) (db : Database)
    → WellFormed db.budget_events
    → Sound (submit_in_transaction o s now db)
unfolding submit_in_transaction
submit_in_transaction-Sound o s now db w = ground arith

pub settle_in_transaction-Sound :
    (o s : String) (units now : ℕ) (db : Database)
    → WellFormed db.budget_events
    → Sound (settle_in_transaction o s units now db)
unfolding settle_in_transaction
settle_in_transaction-Sound o s units now db w =
    elim (Option-cases (get_event o submitted db.budget_events)) [
      | inl unsent ↦ ground arith
      | inr (prior, sent) ↦ ground (arith, option_beq_iff prior.signature (some s))
    ]

-- A rebuilt row is the same but for the time and the evidence.
restamped-same :
    (o : String) (t : ℕ) (e : BudgetEvent)
    → ((restamped o t e).obligation_id ≡ e.obligation_id)
      × ((restamped o t e).event ≡ e.event)
      × ((restamped o t e).kind ≡ e.kind)
      × ((restamped o t e).amount_usdc_units ≡ e.amount_usdc_units)
      × ((restamped o t e).signature ≡ e.signature)
unfolding restamped
restamped-same o t e = elim (Bool-cases ((e.obligation_id == o) && same_state e.event confirmed)) [
  | inl h ↦ rw h (refl, refl, refl, refl, refl)
  | inr h ↦ rw h (refl, refl, refl, refl, refl)
]

pub get_event-restamp :
    (o p : String) (t : ℕ) (s : BudgetState) (es : List BudgetEvent)
    → get_event p s (restamp o t es) ≡ Option.map (restamped o t) (get_event p s es)
get_event-restamp o p t s [] = refl
get_event-restamp o p t s (e ∷ es) =
    simp ((restamped-same o t e).0, (restamped-same o t e).1)
      (elim (Bool-cases ((e.obligation_id == p) && same_state e.event s)) [
        | inl h ↦ rw h refl
        | inr h ↦ rw h (get_event-restamp o p t s es)
      ])

module _ (o : String) (t : ℕ) where
  IsBacked-restamped :
      (e : BudgetEvent) (r : Option BudgetEvent)
      → IsBacked e r
      → IsBacked (restamped o t e) (Option.map (restamped o t) r)
  IsBacked-restamped e none h = h
  IsBacked-restamped e (some r) h = ground (arith, restamped-same o t e, restamped-same o t r)

  Agrees-restamped :
      (e : BudgetEvent) (r : Option BudgetEvent)
      → Agrees e r
      → Agrees (restamped o t e) (Option.map (restamped o t) r)
  Agrees-restamped e none h = tt
  Agrees-restamped e (some r) h = ground (arith, restamped-same o t e, restamped-same o t r)

  absent-restamp :
      (p : String) (s : BudgetState) (es : List BudgetEvent)
      → get_event p s es ≡ none
      → get_event p s (restamp o t es) ≡ none
  absent-restamp p s es h = get_event-restamp o p t s es ∙ ap (Option.map (restamped o t)) h

  FitsAs-restamp :
      (s : BudgetState) (e : BudgetEvent) (es : List BudgetEvent)
      → FitsAs s e es
      → FitsAs s (restamped o t e) (restamp o t es)
  FitsAs-restamp reserved e es h = simp (restamped-same o t e).0 (
    absent-restamp _ _ es h.0,
    absent-restamp _ _ es h.1,
    absent-restamp _ _ es h.2,
    absent-restamp _ _ es h.3,
  )
  FitsAs-restamp submitted e es h =
      simp
        (
          (restamped-same o t e).0,
          get_event-restamp o e.obligation_id t reserved es,
          get_event-restamp o e.obligation_id t confirmed es,
        )
        (
          IsBacked-restamped e _ h.0,
          absent-restamp _ _ es h.1,
          Agrees-restamped e _ h.2,
          absent-restamp _ _ es h.3,
        )
  FitsAs-restamp confirmed e es h =
      simp
        (
          (restamped-same o t e).0,
          get_event-restamp o e.obligation_id t reserved es,
          get_event-restamp o e.obligation_id t submitted es,
        )
        (
          IsBacked-restamped e _ h.0,
          Agrees-restamped e _ h.1,
          absent-restamp _ _ es h.2,
          absent-restamp _ _ es h.3,
        )
  FitsAs-restamp released e es h =
      simp ((restamped-same o t e).0, get_event-restamp o e.obligation_id t reserved es)
        (
          IsBacked-restamped e _ h.0,
          absent-restamp _ _ es h.1,
          absent-restamp _ _ es h.2,
          absent-restamp _ _ es h.3,
        )

  pub restamp-WellFormed : (es : List BudgetEvent) → WellFormed es → WellFormed (restamp o t es)
  restamp-WellFormed [] w = tt
  restamp-WellFormed (e ∷ es) w = (
    subst (λ s. FitsAs s (restamped o t e) (restamp o t es)) (sym (restamped-same o t e).1)
        (FitsAs-restamp e.event e es w.0),
    restamp-WellFormed es w.1,
  )
