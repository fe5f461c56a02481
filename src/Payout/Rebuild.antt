-- ===== src/Payout/Rebuild.antt =====
-- Rebuilding an obligation from a finalized transfer: `reconstruct_in_transaction`.
use swap_service.Base.{
  ℕ, String, ◌≡◌, refl, true, Option, none, some, List, [], ◌∷◌, arith, string_eq, str_eq_iff,
  option_beq_iff, Bool-cases, inl, inr, ◌||◌, not,
}
use swap_service.Database.{
  BudgetState, reserved, submitted, confirmed, released, BudgetEvent, Database,
}
use swap_service.Payout.{
  get_event, has_event, all_expected, is_expected, complete_event, recovered_row, has_conflict,
  reconstruct_in_transaction,
}
use swap_service.Payout.WellFormed.{WellFormed, unreserved}
use swap_service.Payout.Preserve.{restamp-WellFormed}

module _ (o kind s : String) (units : ℕ) where
  -- What a row of the obligation holds if the loop let it pass.
  abbrev Expects : BudgetState → Option BudgetEvent → Type 0
  Expects _ none = Unit
  Expects reserved (some e) = (e.kind ≡ kind) × (e.amount_usdc_units ≡ units)
  Expects submitted (some e) =
      (e.kind ≡ kind) × (e.amount_usdc_units ≡ units) × (e.signature ≡ some s)
  Expects confirmed (some e) =
      (e.kind ≡ kind) × (e.amount_usdc_units ≡ units) × (e.signature ≡ some s)
  Expects released (some e) = ⊥

  is_expected-Expects :
      (e : BudgetEvent) → is_expected kind units s e ≡ true → Expects e.event (some e)
  is_expected-Expects e h =
      ground (arith, str_eq_iff e.kind kind, option_beq_iff e.signature (some s))

  all_expected-Expects :
      (st : BudgetState) (es : List BudgetEvent)
      → all_expected o kind units s es ≡ true
      → Expects st (get_event o st es)
  all_expected-Expects st [] h = tt
  all_expected-Expects st (e ∷ es) h =
      ground (arith, all_expected-Expects st es, is_expected-Expects e)

  module _ (t : ℕ) where
    abbrev with_reserved : List BudgetEvent → List BudgetEvent
    with_reserved = complete_event (recovered_row o kind reserved units none t)

    abbrev with_submitted : List BudgetEvent → List BudgetEvent
    with_submitted = complete_event (recovered_row o kind submitted units (some s) t)

    abbrev with_confirmed : List BudgetEvent → List BudgetEvent
    with_confirmed = complete_event (recovered_row o kind confirmed units (some s) t)

    -- Every row of the obligation is as expected, whatever its event.
    abbrev AsExpected : List BudgetEvent → Type 0
    AsExpected es =
        Expects reserved (get_event o reserved es)
        × Expects submitted (get_event o submitted es)
        × Expects confirmed (get_event o confirmed es)
        × (get_event o released es ≡ none)

    with_reserved-WellFormed :
        (es : List BudgetEvent)
        → WellFormed es
        → AsExpected es
        → WellFormed (with_reserved es)
          × AsExpected (with_reserved es)
          × (has_event o reserved (with_reserved es) ≡ true)
    with_reserved-WellFormed es w x = ground (arith, unreserved o es w, str_eq_iff o o)

    with_submitted-WellFormed :
        (es : List BudgetEvent)
        → WellFormed es
        → AsExpected es
        → has_event o reserved es ≡ true
        → WellFormed (with_submitted es)
          × AsExpected (with_submitted es)
          × (has_event o reserved (with_submitted es) ≡ true)
    with_submitted-WellFormed es w x h = ground (arith, str_eq_iff o o)

    with_confirmed-WellFormed :
        (es : List BudgetEvent)
        → WellFormed es
        → AsExpected es
        → has_event o reserved es ≡ true
        → WellFormed (with_confirmed es) × AsExpected (with_confirmed es)
    with_confirmed-WellFormed es w x h = ground (arith, str_eq_iff o o)

    abbrev completed : List BudgetEvent → List BudgetEvent
    completed es = with_confirmed (with_submitted (with_reserved es))

    completed-WellFormed :
        (es : List BudgetEvent)
        → WellFormed es
        → all_expected o kind units s es ≡ true
        → WellFormed (completed es)
    completed-WellFormed es w h =
        let a = with_reserved-WellFormed es w (
          all_expected-Expects reserved es h,
          all_expected-Expects submitted es h,
          all_expected-Expects confirmed es h,
          no_release (get_event o released es) (all_expected-Expects released es h),
        ) in
        let b = with_submitted-WellFormed (with_reserved es) a.0 a.1 a.2 in
        (with_confirmed-WellFormed (with_submitted (with_reserved es)) b.0 b.1 b.2).0
      where
        no_release : (r : Option BudgetEvent) → Expects released r → r ≡ none
        no_release none x = refl
        no_release (some e) x = absurd x

    -- A finalized transfer is rebuilt into a well-formed table, or the table is left alone.
    pub reconstruct_in_transaction-WellFormed :
        (db : Database)
        → WellFormed db.budget_events
        → WellFormed (reconstruct_in_transaction o kind s units t db).1.budget_events
    unfolding reconstruct_in_transaction
    reconstruct_in_transaction-WellFormed db w =
        elim (Bool-cases (
          has_conflict o s db.budget_events
          || not (all_expected o kind units s db.budget_events))) [
            | inl refused ↦ rw refused w
            | inr fine ↦
                rw fine (
                  restamp-WellFormed o t _ (completed-WellFormed db.budget_events w (ground arith)))
          ]
