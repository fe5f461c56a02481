-- ===== src/Return/Outcome.antt =====
-- Every way in which the transaction of `prepare_solana_sig_disposition` can end.
use swap_service.Base.{
  Option-Holds, Result-Holds, Ensures-map, ℕ, ◌+◌, ◌-◌, ◌≤◌, ◌≡◌, ◌≢◌, ◌⊎◌, refl, sym, subst, inl,
  inr, ◌==◌, string_eq, ℕ_eq, not, ◌&&◌, ◌||◌, ltb, Bool, true, false, Option, none, some, ◌∷◌,
  is_some, bool_beq, Result, ok, Ensures, >>=-Ensures, if◌then◌else◌, if-Holds, Bool-cases, arith,
  option_eq,
}
use swap_service.Database.{Json, PendingDeposit, BudgetEvent, CapacityHold, Database, reserved}
use swap_service.Payout.{has_event, budget_usage, reserve_in_transaction, append_event}
use swap_service.Deposit.{get_deposit, put_deposit, has_processed, has_returned}
use swap_service.Return.Kinds.{
  kind_text, opposing, held_status, capacity_status, budget_kind, obligation_id, returned,
  set_returned,
}
use swap_service.Return.Intent.{
  ReturnRequest, parse_intent, same_request, same_json, intent_matches,
}
use swap_service.Return.Evidence.{intent_matches-same}
use swap_service.Return.Holds.{
  PrepareStatus, prepared, capacity_held, current_cap_too_low, source_conflict, malformed_evidence,
  already_submitted, PrepareResult, is_source_of, is_submitted, is_preparable, get_hold,
  delete_hold, waits_for_older, hold_capacity, write_hold, hold_reason,
}
use swap_service.Return.Claim.{
  refused, frozen_return, freeze_return, claim_capacity, with_hold, prepare_row,
  prepare_in_transaction,
}

-- The reservation that a prepared return makes.
abbrev pub reservation : ReturnRequest → ℕ → BudgetEvent
reservation q now = record {
  obligation_id = obligation_id q.kind q.source_sig;
  kind = budget_kind q.kind;
  event = reserved;
  amount_usdc_units = q.payout_units;
  signature = none;
  evidence = none;
  timestamp = now;
}

-- The database that a prepared return leaves.
abbrev pub frozen_database : ReturnRequest → Json → ℕ → PendingDeposit → Database → Database
frozen_database q evidence now r db =
    record (set_returned q.kind (frozen_return q evidence ∷ returned q.kind db) db) {
      budget_events = reservation q now ∷ db.budget_events;
      unprocessed_sigs =
          put_deposit (record r { status = some (held_status q.kind) }) db.unprocessed_sigs;
      capacity_holds = delete_hold q.source_sig db.capacity_holds;
    }

-- The payout within the cap, of which zero is none.
abbrev pub WithinCap : ℕ → ℕ → Type 0
WithinCap cap used = (cap ≡ 0) ⊎ (used ≤ cap)

-- A return that was prepared: nothing stood in its way, and the database is the frozen one.
abbrev pub Prepared :
    ReturnRequest → ℕ → ℕ → PendingDeposit → Database → PrepareResult × Database → Type 0
Prepared q cap now r db (res, db') =
    (evidence : Json) × (intent_matches q evidence ≡ true)
    × (is_source_of q r ≡ true)
    × (is_submitted q db ≡ false)
    × (is_preparable q.kind r.status ≡ true)
    × (has_returned q.source_sig (returned (opposing q.kind) db) ≡ false)
    × (has_processed q.source_sig db.processed_sigs ≡ false)
    × (waits_for_older q.source_sig cap db.capacity_holds ≡ false)
    × WithinCap cap (budget_usage db (now - 86400) + q.payout_units)
    × (res.status ≡ prepared)
    × (db' ≡ frozen_database q evidence now r db)

-- A return that was not: the budget and the two tables are as they were.
abbrev pub Unchanged : PrepareResult × Database → Database → Type 0
Unchanged (res, db') db =
    (res.status ≢ prepared)
    × (db'.budget_events ≡ db.budget_events)
    × (db'.refunded_sigs ≡ db.refunded_sigs)
    × (db'.quarantined_sigs ≡ db.quarantined_sigs)
    × (db'.fee_entries ≡ db.fee_entries)

abbrev pub Outcome :
    ReturnRequest → ℕ → ℕ → PendingDeposit → Database → PrepareResult × Database → Type 0
Outcome q cap now r db out = Unchanged out db ⊎ Prepared q cap now r db out

freeze_return-eq :
    (q : ReturnRequest) (evidence : Json) (used cap now : ℕ) (r : PendingDeposit) (db : Database)
    → has_event (obligation_id q.kind q.source_sig) reserved db.budget_events ≡ false
    → (ltb 0 cap && ltb cap (budget_usage db (now - 86400) + q.payout_units)) ≡ false
    → freeze_return q evidence used cap now r db
      ≡ ok (refused prepared q used cap (frozen_database q evidence now r db))
unfolding freeze_return reserve_in_transaction append_event
freeze_return-eq q evidence used cap now r db n w = simp (n, w)

-- Nothing that the outcome speaks of has changed.
stay :
    (q : ReturnRequest) (cap now used : ℕ) (r : PendingDeposit) (db : Database) (s : PrepareStatus)
    → s ≢ prepared
    → Outcome q cap now r db (refused s q used cap db)
stay q cap now used r db s h = inl (h, refl, refl, refl, refl)

within : (cap used : ℕ) → (ltb 0 cap && ltb cap used) ≡ false → WithinCap cap used
within cap used h = elim (Bool-cases (ltb 0 cap)) [
  | inl b ↦ inr (ground (arith, h, b))
  | inr b ↦ inl (ground (arith, b))
]

held_ne : (b : Bool) → (if b then current_cap_too_low else capacity_held) ≢ prepared
held_ne true h = cc
held_ne false h = cc

hold_capacity-Outcome :
    (q : ReturnRequest) (evidence : Json) (hold : Option CapacityHold) (used cap now : ℕ)
    (waits : Bool) (r : PendingDeposit) (db : Database)
    → Ensures (Outcome q cap now r db) (hold_capacity q evidence hold used cap waits now r db)
unfolding hold_capacity
hold_capacity-Outcome q evidence hold used cap now waits r db =
    >>=-Ensures (Outcome q cap now r db)
      (write_hold q evidence hold used cap (hold_reason (ltb 0 cap && ltb cap q.payout_units) waits)
        now db.capacity_holds)
      _ λ holds _. inl (held_ne (ltb 0 cap && ltb cap q.payout_units), refl, refl, refl, refl)

conjunct4 : (a b c d e : Bool) → (a && b && c && d && e) ≡ true → d ≡ true
conjunct4 a b c d e h = ground (arith, h)

module _ (q : ReturnRequest) (cap now : ℕ) (r : PendingDeposit) (db : Database) where
  abbrev Ends : Result (PrepareResult × Database) → Type 0
  Ends = Ensures (Outcome q cap now r db)

  -- The tests that the transaction has made when it comes to the budget.
  abbrev Free : Type 0
  Free =
      (is_source_of q r ≡ true)
      × (is_submitted q db ≡ false)
      × (is_preparable q.kind r.status ≡ true)
      × (has_returned q.source_sig (returned (opposing q.kind) db) ≡ false)
      × (has_processed q.source_sig db.processed_sigs ≡ false)

  claim_capacity-Ends :
      (evidence : Json) (hold : Option CapacityHold)
      → intent_matches q evidence ≡ true
      → Free
      → Ends (claim_capacity q evidence hold cap now r db)
  unfolding claim_capacity
  claim_capacity-Ends evidence hold matches (source, fresh, ready, alone, unprocessed) =
      let used = budget_usage db (now - 86400) in
      let waits = waits_for_older q.source_sig cap db.capacity_holds in
      let exhausted = ltb 0 cap && ltb cap (used + q.payout_units) in
      if-Holds Ends (waits || exhausted) (hold_capacity q evidence hold used cap waits now r db)
        (freeze_return q evidence used cap now r db)
        (λ _. hold_capacity-Outcome q evidence hold used cap now waits r db)
        λ free.
          let w : waits ≡ false = ground (arith, free) in
          let x : exhausted ≡ false = ground (arith, free) in
          let n : has_event (obligation_id q.kind q.source_sig) reserved db.budget_events ≡ false =
            ground (arith, fresh) in
          subst Ends (sym (freeze_return-eq q evidence used cap now r db n x)) (
            inr (
              evidence,
              matches,
              source,
              fresh,
              ready,
              alone,
              unprocessed,
              w,
              within cap (used + q.payout_units) x,
              refl,
              refl,
            ))

  with_hold-Ends :
      (supplied : Bool) (evidence : Json) (hold : Option CapacityHold)
      → intent_matches q evidence ≡ true
      → Free
      → Ends (with_hold q supplied evidence hold cap now r db)
  unfolding with_hold
  with_hold-Ends supplied evidence none matches free =
      if-Holds Ends supplied (ok (refused source_conflict q 0 cap db))
        (claim_capacity q evidence none cap now r db)
        (λ _. stay q cap now 0 r db source_conflict (λ h. cc))
        (λ _. claim_capacity-Ends evidence none matches free)
  with_hold-Ends supplied evidence (some h) matches free =
      Result-Holds Ends (parse_intent h.intent_evidence) _ _
        (λ e _. stay q cap now 0 r db malformed_evidence (λ h. cc))
        λ f parsed.
          if-Holds Ends
            ((h.kind == kind_text q.kind)
              && (h.obligation_id == obligation_id q.kind q.source_sig)
              && (h.needed_units == q.payout_units)
              && same_request f.request q
              && (not supplied || same_json h.intent_evidence evidence))
            (claim_capacity q h.intent_evidence (some h) cap now r db)
            (ok (refused source_conflict q 0 cap db))
            (λ same.
              claim_capacity-Ends h.intent_evidence (some h)
                (intent_matches-same q h.intent_evidence f parsed (
                  conjunct4 (h.kind == kind_text q.kind)
                    (h.obligation_id == obligation_id q.kind q.source_sig)
                    (h.needed_units == q.payout_units) (same_request f.request q)
                    (not supplied || same_json h.intent_evidence evidence) same))
                free)
            (λ _. stay q cap now 0 r db source_conflict (λ h. cc))

  found_row-Ends :
      (supplied : Bool) (evidence : Json)
      → intent_matches q evidence ≡ true
      → Ends (prepare_row q supplied evidence cap now r db)
  unfolding prepare_row
  found_row-Ends supplied evidence matches =
      let conflict = stay q cap now 0 r db source_conflict (λ h. cc) in
      let hold = get_hold q.source_sig db.capacity_holds in
      if-Holds Ends (not (is_source_of q r)) _ _ (λ _. conflict)
        λ source.
          if-Holds Ends (is_submitted q db) _ _
            (λ _. stay q cap now 0 r db already_submitted (λ h. cc))
            λ fresh.
              if-Holds Ends (not (is_preparable q.kind r.status)) _ _ (λ _. conflict)
                λ ready.
                  if-Holds Ends
                    (has_returned q.source_sig (returned (opposing q.kind) db)
                      || has_processed q.source_sig db.processed_sigs)
                    _ _ (λ _. conflict)
                    λ alone.
                      if-Holds Ends
                        (not (bool_beq (r.status == some (capacity_status q.kind)) (is_some hold)))
                        _ _ (λ _. conflict)
                        λ _. with_hold-Ends supplied evidence hold matches (
                          ground (arith, source),
                          fresh,
                          ground (arith, ready),
                          ground (arith, alone),
                          ground (arith, alone),
                        )

-- A preparation that did not fail prepared the return or changed none of the budget, the two
-- tables and the fees.
pub prepare_in_transaction-Ends :
    (q : ReturnRequest) (supplied : Bool) (evidence : Json) (cap now : ℕ) (db : Database)
    → intent_matches q evidence ≡ true
    → Ensures
        (λ out.
          Unchanged out db
          ⊎ ((r : PendingDeposit) × (get_deposit q.source_sig db.unprocessed_sigs ≡ some r)
              × Prepared q cap now r db out))
        (prepare_in_transaction q supplied evidence cap now db)
unfolding prepare_in_transaction
prepare_in_transaction-Ends q supplied evidence cap now db matches =
    let P : PrepareResult × Database → Type 0 = λ out.
      Unchanged out db
      ⊎ ((r : PendingDeposit) × (get_deposit q.source_sig db.unprocessed_sigs ≡ some r)
          × Prepared q cap now r db out) in
    Option-Holds (Ensures P) (get_deposit q.source_sig db.unprocessed_sigs) _ _
      (λ _. inl ((λ h. cc), refl, refl, refl, refl))
      λ r g.
        Ensures-map (Outcome q cap now r db) P (prepare_row q supplied evidence cap now r db)
          (λ out o. elim o [ inl u ↦ inl u | inr p ↦ inr (r, g, p) ])
          (found_row-Ends q cap now r db supplied evidence matches)
