-- ===== src/Payout/Limits.antt =====
-- The rolling cap: what each operation does to the capacity that counts as used.
use swap_service.Base.{
  ltb→lt, ℕ, ◌+◌, ◌-◌, ◌≤◌, ◌<◌, String, ◌≡◌, refl, ap, ◌∙◌, ◌⊎◌, Bool, true, false, none, some,
  ◌∷◌, arith, string_eq, ltb, Bool-cases, Option-cases, inl, inr, ok, Value, int, pos, Ensures,
  Ensures-ok, require_positive-eq-ok, require_nonnegative-eq-ok,
}
use swap_service.Database.{reserved, confirmed, released, BudgetEvent, Database}
use swap_service.Payout.{
  get_event, is_settled, sum_unsettled, budget_usage, reserve_in_transaction, reserve,
  release_in_transaction, release, settle_in_transaction, settle, require_text,
}
use swap_service.Payout.Checked.{reserve_checked, settle_checked, release_checked}
use swap_service.Payout.WellFormed.{WellFormed, unreserved}
use swap_service.Payout.Capacity.{
  amount_of, sum_unsettled-open, sum_unsettled-settled, sum_confirmed-other, sum_confirmed-new,
  sum_payouts-le, sum_payouts-other, amount-le-sum_unsettled,
}

abbrev with_event : BudgetEvent → Database → Database
with_event e db = record db { budget_events = e ∷ db.budget_events }

-- One new reservation adds its amount at every cut-off.
with_event-reserved :
    (e : BudgetEvent) (db : Database) (cutoff : ℕ)
    → WellFormed db.budget_events
    → e.event ≡ reserved
    → get_event e.obligation_id reserved db.budget_events ≡ none
    → budget_usage (with_event e db) cutoff ≡ budget_usage db cutoff + e.amount_usdc_units
unfolding budget_usage sum_unsettled
with_event-reserved e db cutoff w r fresh = ground (
  arith,
  unreserved e.obligation_id db.budget_events w,
  sum_unsettled-open e db.budget_events db.budget_events,
  sum_confirmed-other cutoff e db.budget_events,
  sum_payouts-other e db.budget_events cutoff db.payouts,
)

-- Settling a reservation moves its amount from open to spent.
with_event-confirmed :
    (e : BudgetEvent) (db : Database) (cutoff : ℕ)
    → WellFormed db.budget_events
    → e.event ≡ confirmed
    → cutoff ≤ e.timestamp
    → amount_of (get_event e.obligation_id reserved db.budget_events) ≡ e.amount_usdc_units
    → is_settled db.budget_events e.obligation_id ≡ false
    → budget_usage (with_event e db) cutoff ≤ budget_usage db cutoff
unfolding budget_usage sum_unsettled
with_event-confirmed e db cutoff w c t a open_row = ground (
  arith,
  sum_unsettled-settled e db.budget_events db.budget_events w,
  sum_confirmed-new cutoff e db.budget_events,
  sum_payouts-le e db.budget_events cutoff db.payouts,
)

-- Releasing a reservation gives exactly its amount back.
with_event-released :
    (e : BudgetEvent) (db : Database) (cutoff : ℕ)
    → WellFormed db.budget_events
    → e.event ≡ released
    → amount_of (get_event e.obligation_id reserved db.budget_events) ≡ e.amount_usdc_units
    → is_settled db.budget_events e.obligation_id ≡ false
    → budget_usage (with_event e db) cutoff + e.amount_usdc_units ≡ budget_usage db cutoff
unfolding budget_usage sum_unsettled
with_event-released e db cutoff w c a open_row = ground (
  arith,
  sum_unsettled-settled e db.budget_events db.budget_events w,
  sum_confirmed-other cutoff e db.budget_events,
  sum_payouts-other e db.budget_events cutoff db.payouts,
)

reserve_in_transaction_inv :
    (o k : String) (units cap_units window now : ℕ) (db db' : Database)
    → reserve_in_transaction o k units cap_units window now db ≡ ok (true, db')
    → (get_event o reserved db.budget_events ≡ none)
      × (0 < cap_units → budget_usage db (now - window) + units ≤ cap_units)
      × (db'
          ≡ with_event
              (record {
                obligation_id = o;
                kind = k;
                event = reserved;
                amount_usdc_units = units;
                signature = none;
                evidence = none;
                timestamp = now;
              })
              db)
unfolding reserve_in_transaction
reserve_in_transaction_inv o k units cap_units window now db db' h = ground arith

-- A granted reservation raises the used capacity by its amount at every cut-off, and leaves it
-- within the cap in its window, unless the cap is 0, which stands for no cap.
pub reserve_granted :
    (o k : String) (units cap_units window now cutoff : ℕ) (db db' : Database)
    → WellFormed db.budget_events
    → reserve o k (int (pos units)) (int (pos cap_units)) (int (pos window)) now db ≡ ok (true, db')
    → (budget_usage db' cutoff ≡ budget_usage db cutoff + units)
      × ((cap_units ≡ 0) ⊎ (budget_usage db' (now - window) ≤ cap_units))
reserve_granted o k units cap_units window now cutoff db db' w h =
    let (o', k', u, c, v, po, pu, pc, pv, e) = reserve_checked now db o k _ _ _ h in
    granted o' k' (require_positive-eq-ok units pu) (require_nonnegative-eq-ok cap_units pc)
      (require_positive-eq-ok window pv) (reserve_in_transaction_inv o' k' u c v now db db' e)
  where
    row : String → String → ℕ → BudgetEvent
    row o' k' u = record {
      obligation_id = o';
      kind = k';
      event = reserved;
      amount_usdc_units = u;
      signature = none;
      evidence = none;
      timestamp = now;
    }

    granted :
        (o' k' : String) {u c v : ℕ}
        → units ≡ u
        → cap_units ≡ c
        → window ≡ v
        → (get_event o' reserved db.budget_events ≡ none)
          × (0 < c → budget_usage db (now - v) + u ≤ c)
          × (db' ≡ with_event (row o' k' u) db)
        → (budget_usage db' cutoff ≡ budget_usage db cutoff + units)
          × ((cap_units ≡ 0) ⊎ (budget_usage db' (now - window) ≤ cap_units))
    granted o' k' {u} {c} {v} pu pc pv (fresh, fits, same) = (
      omega (
        arith,
        ap (λ d. budget_usage d cutoff) same,
        with_event-reserved (row o' k' u) db cutoff w refl fresh,
      ),
      elim (Bool-cases (ltb 0 c)) [
        | inr free ↦ inl (pc ∙ ground (arith, free))
        | inl capped ↦ inr (
            rw (pc, pv)
              (omega (
                arith,
                ap (λ d. budget_usage d (now - v)) same,
                with_event-reserved (row o' k' u) db (now - v) w refl fresh,
                fits (ltb→lt 0 c capped),
              )))
      ],
    )

abbrev Settled : ℕ → Database → Bool × Database → Type 0
Settled cutoff db (done, db') = budget_usage db' cutoff ≤ budget_usage db cutoff

settle_in_transaction-Settled :
    (o s : String) (units now cutoff : ℕ) (db : Database)
    → WellFormed db.budget_events
    → cutoff ≤ now
    → Ensures (Settled cutoff db) (settle_in_transaction o s units now db)
unfolding settle_in_transaction
settle_in_transaction-Settled o s units now cutoff db w t =
    elim (Option-cases (get_event o reserved db.budget_events)) [
      | inl unreserved_yet ↦ ground arith
      | inr (r, held) ↦ ground (
        arith,
        with_event-confirmed
            (record {
              obligation_id = o;
              kind = r.kind;
              event = confirmed;
              amount_usdc_units = units;
              signature = some s;
              evidence = none;
              timestamp = now;
            })
            db cutoff w,
      )
    ]

abbrev pub Released : String → ℕ → Database → Bool × Database → Type 0
Released o cutoff db (true, db') =
    budget_usage db' cutoff + amount_of (get_event o reserved db.budget_events)
    ≡ budget_usage db cutoff
Released o cutoff db (false, db') = db' ≡ db

release_in_transaction-Released :
    (o reason : String) (now cutoff : ℕ) (db : Database)
    → WellFormed db.budget_events
    → Ensures (Released o cutoff db) (release_in_transaction o reason now db)
unfolding release_in_transaction
release_in_transaction-Released o reason now cutoff db w =
    elim (Option-cases (get_event o reserved db.budget_events)) [
      | inl unreserved_yet ↦ ground arith
      | inr (r, held) ↦ ground (
        arith,
        with_event-released
            (record {
              obligation_id = o;
              kind = r.kind;
              event = released;
              amount_usdc_units = r.amount_usdc_units;
              signature = none;
              evidence = some reason;
              timestamp = now;
            })
            db cutoff w,
      )
    ]

-- A settlement that is granted or refused never raises the used capacity at a cut-off up to the
-- present: a confirmed amount takes the place of its reservation.
pub settle_usage-le :
    (o s : String) (units : Value) (now cutoff : ℕ) (db db' : Database) (done : Bool)
    → WellFormed db.budget_events
    → cutoff ≤ now
    → settle o s units now db ≡ ok (done, db')
    → budget_usage db' cutoff ≤ budget_usage db cutoff
settle_usage-le o s units now cutoff db db' done w t h =
    let (o', s', u, _, _, _, e) = settle_checked now db o s units h in
    Ensures-ok (Settled cutoff db) _ (settle_in_transaction-Settled o' s' u now cutoff db w t) e

-- A release that is granted gives exactly the reservation's amount back at every cut-off, and one
-- that is refused changes nothing.
pub release_usage :
    (o reason : String) (now cutoff : ℕ) (db db' : Database) (done : Bool)
    → WellFormed db.budget_events
    → release o reason now db ≡ ok (done, db')
    → (o' : String) × (require_text o 500 ≡ ok o') × Released o' cutoff db (done, db')
release_usage o reason now cutoff db db' done w h =
    let (o', why, po, e) = release_checked now db o reason h in
    (
      o',
      po,
      Ensures-ok (Released o' cutoff db) _ (release_in_transaction-Released o' why now cutoff db w)
          e,
    )

-- An open reservation counts in full whatever the cut-off: it never ages out of the window.
pub unsettled_counts :
    (o : String) (r : BudgetEvent) (db : Database) (cutoff : ℕ)
    → get_event o reserved db.budget_events ≡ some r
    → is_settled db.budget_events o ≡ false
    → r.amount_usdc_units ≤ budget_usage db cutoff
unfolding budget_usage
unsettled_counts o r db cutoff h u =
    ground (arith, amount-le-sum_unsettled o db.budget_events db.budget_events u)
