-- ===== src/Return/Sent.antt =====
-- The submission of a prepared return.
use swap_service.Base.{
  ℕ, ◌≡◌, refl, ap, ◌∙◌, string_eq, ℕ_eq, int_eq, option_eq, value_eq, String, true, false, none,
  some, ◌∷◌, ok, ◌>>=◌, arith,
}
use swap_service.Database.{
  Json, PendingDeposit, ReturnedDeposit, BudgetEvent, Database, reserved, submitted,
}
use swap_service.Payout.{get_event}
use swap_service.Deposit.{get_deposit, put_deposit}
use swap_service.Deposit.Freezing.{get-put, get-sig}
use swap_service.Return.Kinds.{
  by_kind-same, held_status, awaiting_status, budget_kind, obligation_id, returned, set_returned,
  get_returned,
}
use swap_service.Return.Intent.{ReturnRequest}
use swap_service.Return.Claim.{frozen_return}
use swap_service.Return.Submit.{sent, submit_return, submit_found, submit_row, advance_source}
use swap_service.Return.Steps.{
  put-refunded, put-quarantined, first_event, other_event, append_new, first_returned,
  advance-found,
}
use swap_service.Return.Outcome.{frozen_database, reservation}
use swap_service.Return.Holds.{is_submitted}

-- The row of a return at each stage after its preparation.
abbrev pub sent_row : ReturnRequest → Json → String → ReturnedDeposit
sent_row q e signature = record (frozen_return q e) {
  payout_sig = some signature;
  status = some "awaiting confirmation";
}

abbrev pub submission : ReturnRequest → String → ℕ → BudgetEvent
submission q signature now = record {
  obligation_id = obligation_id q.kind q.source_sig;
  kind = budget_kind q.kind;
  event = submitted;
  amount_usdc_units = q.payout_units;
  signature = some signature;
  evidence = none;
  timestamp = now;
}

module _ (q : ReturnRequest) (e : Json) (r : PendingDeposit) (db : Database) where
  -- The database that the submission of a prepared return leaves.
  abbrev pub sent_database : String → ℕ → ℕ → Database
  sent_database signature now later =
      record (set_returned q.kind (sent_row q e signature ∷ returned q.kind db) db) {
        budget_events = submission q signature later ∷ reservation q now ∷ db.budget_events;
        unprocessed_sigs =
            put_deposit (record r { status = some (awaiting_status q.kind) })
              (put_deposit (record r { status = some (held_status q.kind) }) db.unprocessed_sigs);
        capacity_holds = (frozen_database q e now r db).capacity_holds;
      }

  submit_frozen :
      (signature : String) (now later : ℕ)
      → is_submitted q db ≡ false
      → get_deposit q.source_sig db.unprocessed_sigs ≡ some r
      → submit_found q.kind q.source_sig signature later
          (some (reservation q now))
          (some (frozen_return q e))
          (frozen_database q e now r db)
        ≡ ok (true, sent_database signature now later)
  unfolding submit_found submit_row
  submit_frozen signature now later fresh g =
      let D = frozen_database q e now r db in
      let b = submission q signature later in
      let k = q.kind in
      let none_yet : get_event (obligation_id q.kind q.source_sig) submitted D.budget_events
          ≡ none =
        other_event (obligation_id q.kind q.source_sig) submitted (reservation q now)
          db.budget_events refl
        ∙ ground (arith, fresh) in
      let u = record r { status = some (held_status q.kind) } in
      let D₁ = record D { budget_events = b ∷ D.budget_events } in
      let found : get_deposit q.source_sig
            (sent q.kind signature (frozen_return q e) D₁).unprocessed_sigs
          ≡ some u =
        get-put q.source_sig r u db.unprocessed_sigs (get-sig q.source_sig r db.unprocessed_sigs g)
          g in
      ap
        (λ x. submit_row q.kind q.source_sig signature q.payout_units later (frozen_return q e) x D)
        none_yet
      ∙ (ap
            (λ m. m >>= λ (_, db₁).
              advance_source q.source_sig (held_status q.kind) (awaiting_status q.kind)
                (sent q.kind signature (frozen_return q e) db₁)
              >>= λ db₂. ok (true, db₂))
            (append_new b D none_yet)
          ∙ (ap (λ m. m >>= λ db₂. ok (true, db₂))
                (advance-found q.source_sig (held_status q.kind) (awaiting_status q.kind) u
                  (sent q.kind signature (frozen_return q e) D₁) found refl)
              ∙ (λ i. ok (
                true,
                record (sent_database signature now later) {
                  refunded_sigs =
                      put-refunded q.kind (sent_row q e signature) (frozen_return q e)
                        (returned q.kind db) db refl i;
                  quarantined_sigs =
                      put-quarantined q.kind (sent_row q e signature) (frozen_return q e)
                        (returned q.kind db) db refl i;
                },
              ))))

  pub submit_prepared :
      (signature : String) (now later : ℕ)
      → is_submitted q db ≡ false
      → get_deposit q.source_sig db.unprocessed_sigs ≡ some r
      → submit_return q.kind q.source_sig signature later (frozen_database q e now r db)
        ≡ ok (true, sent_database signature now later)
  unfolding submit_return
  submit_prepared signature now later fresh g =
      let D = frozen_database q e now r db in
      let o = obligation_id q.kind q.source_sig in
      let has : get_event o reserved D.budget_events ≡ some (reservation q now) =
        first_event (reservation q now) db.budget_events in
      let row : get_returned q.source_sig (returned q.kind D) ≡ some (frozen_return q e) =
        ap (get_returned q.source_sig) (
          by_kind-same q.kind (frozen_return q e ∷ returned q.kind db) db.refunded_sigs
            db.quarantined_sigs)
        ∙ first_returned (frozen_return q e) (returned q.kind db) in
      ap
        (λ x.
          submit_found q.kind q.source_sig signature later x
            (get_returned q.source_sig (returned q.kind D)) D)
        has
      ∙ (ap (λ x. submit_found q.kind q.source_sig signature later (some (reservation q now)) x D)
            row
          ∙ submit_frozen signature now later fresh g)
