-- ===== src/Return/Recovered.antt =====
-- What a return found on the chain may and may not change.
use swap_service.Base.{
  and_left, ◌≢◌, nat_eq_refl, ℕ, ◌≡◌, ◌⊎◌, refl, sym, subst, inl, inr, ◌==◌, string_eq, str_eq_refl,
  ℕ_eq, option_eq, option_beq_iff, not, ◌||◌, String, Bool, true, false, Option, none, some, List,
  ok, Ensures, Ensures-ok, if-Holds, arith,
}
use swap_service.Database.{PendingDeposit, BudgetEvent, Database}
use swap_service.Payout.{reconstruct_in_transaction, has_conflict, all_expected}
use swap_service.Deposit.{get_deposit, has_processed, has_returned}
use swap_service.Deposit.Freezing.{get-put, get-sig}
use swap_service.Return.Kinds.{
  opposing, evidence_held_status, budget_kind, obligation_id, returned, get_returned,
}
use swap_service.Return.Intent.{ReturnRequest}
use swap_service.Return.Holds.{is_source_of}
use swap_service.Return.Rebuild.{is_open, held_row, may_rebuild, hold_source, rebuild_evidence}
use swap_service.Return.Rebuilt.{rebuild_row, rebuild_in_transaction}

-- Rebuilding an obligation writes the budget's table and no other.
pub reconstruct-Frame :
    (o kind s : String) (units t : ℕ) (db : Database)
    → (es : List BudgetEvent) × ((reconstruct_in_transaction o kind s units t db).1
        ≡ record db { budget_events = es })
unfolding reconstruct_in_transaction
reconstruct-Frame o kind s units t db =
    if-Holds
      (λ (out : Bool × Database).
        (es : List BudgetEvent) × (out.1 ≡ record db { budget_events = es }))
      (has_conflict o s db.budget_events || not (all_expected o kind units s db.budget_events)) _ _
      (λ _. (db.budget_events, refl)) (λ _. (_, refl))

-- A deposit whose whole principal is held for an operator: neither table and no fee has changed.
abbrev pub HeldWhole : ReturnRequest → Database → Database → Type 0
HeldWhole q db db' =
    ((u : PendingDeposit) × (get_deposit q.source_sig db'.unprocessed_sigs ≡ some u)
      × (u.status ≡ some (evidence_held_status q.kind))
      × (is_source_of q u ≡ true))
    × (db'.refunded_sigs ≡ db.refunded_sigs)
    × (db'.quarantined_sigs ≡ db.quarantined_sigs)
    × (db'.fee_entries ≡ db.fee_entries)

held_found :
    (q : ReturnRequest) (o : Option PendingDeposit) (db : Database)
    → get_deposit q.source_sig db.unprocessed_sigs ≡ o
    → may_rebuild q o ≡ true
    → HeldWhole q db (hold_source q o db)
unfolding hold_source may_rebuild
held_found q none db g h = (
  (held_row q, rw (str_eq_refl q.source_sig) refl, refl, simp (str_eq_refl, nat_eq_refl)),
  refl,
  refl,
  refl,
)
held_found q (some u) db g h =
    let source : is_source_of q u ≡ true = and_left (is_source_of q u) (is_open q.kind u) h in
    if-Holds (HeldWhole q db) (u.status == some (evidence_held_status q.kind)) _ _
      (λ b. (
        (u, g, (option_beq_iff u.status (some (evidence_held_status q.kind))).0 b, source),
        refl,
        refl,
        refl,
      ))
      λ b.
        let u' = record u { status = some (evidence_held_status q.kind) } in
        (
          (
            u',
            get-put q.source_sig u u' db.unprocessed_sigs
                (get-sig q.source_sig u db.unprocessed_sigs g) g,
            refl,
            source,
          ),
          refl,
          refl,
          refl,
        )

-- A result that is a refusal, or leaves the deposit held whole.
abbrev RefusedOrHeld : ReturnRequest → Database → Bool × Database → Type 0
RefusedOrHeld q db (b, db') = (b ≡ false) ⊎ HeldWhole q db db'

rebuild_evidence-Held :
    (q : ReturnRequest) (signature : String) (t : ℕ) (db : Database)
    → may_rebuild q (get_deposit q.source_sig db.unprocessed_sigs) ≡ true
    → RefusedOrHeld q db
        (rebuild_evidence q signature t (get_deposit q.source_sig db.unprocessed_sigs) db)
unfolding rebuild_evidence
rebuild_evidence-Held q signature t db h =
    let rebuilt =
      reconstruct_in_transaction (obligation_id q.kind q.source_sig) (budget_kind q.kind) signature
        q.payout_units t db in
    let (es, frame) =
      reconstruct-Frame (obligation_id q.kind q.source_sig) (budget_kind q.kind) signature
        q.payout_units t db in
    if-Holds (RefusedOrHeld q db) rebuilt.0 _ _
      (λ _. inr (
        subst (λ d. HeldWhole q db (hold_source q (get_deposit q.source_sig db.unprocessed_sigs) d))
          (sym frame)
          (held_found q (get_deposit q.source_sig db.unprocessed_sigs)
            (record db { budget_events = es }) refl h)))
      (λ _. inl refl)

-- A transfer on the chain whose return was never frozen here settles nothing: when it is accepted,
-- the whole deposit is held for an operator, and no refund, quarantine or fee is recorded for it.
pub unproven_held :
    (q : ReturnRequest) (signature : String) (t now : ℕ) (db db' : Database)
    → get_returned q.source_sig (returned q.kind db) ≡ none
    → rebuild_in_transaction q signature t now db ≡ ok (true, db')
    → HeldWhole q db db'
unfolding rebuild_in_transaction rebuild_row
unproven_held q signature t now db db' n h =
    let P : Bool × Database → Type 0 = RefusedOrHeld q db in
    let pending = get_deposit q.source_sig db.unprocessed_sigs in
    let refused =
      has_processed q.source_sig db.processed_sigs
      || has_returned q.source_sig (returned (opposing q.kind) db)
      || not (may_rebuild q pending) in
    let both =
      if-Holds (Ensures P) refused _ _ (λ _. inl refl)
        λ free.
          subst (λ x. Ensures P (rebuild_row q signature t now pending x db)) (sym n)
            (rebuild_evidence-Held q signature t db (ground (arith, free))) in
    elim (Ensures-ok P (rebuild_in_transaction q signature t now db) both h) [
      | inl f ↦ absurd (true_ne_false f)
      | inr held ↦ held
    ]
  where
    true_ne_false : true ≢ false
    true_ne_false f = cc
