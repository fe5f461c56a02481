-- ===== src/Return/Complete.antt =====
-- A prepared return runs to its end.
use swap_service.Base.{
  Ensures-ok, if-false, if◌then◌else◌, str_eq_refl, ℕ, ◌-◌, ◌<◌, ◌≡◌, refl, ap, sym, subst, ◌∙◌,
  inl, inr, ◌==◌, string_eq, ℕ_eq, int_eq, option_eq, value_eq, not, leb, String, Bool, true, false,
  none, some, [], ◌∷◌, is_some, ok, ◌>>=◌, require_positive-int, arith,
}
use swap_service.Database.{
  BudgetState, Json, PendingDeposit, ReturnedDeposit, Database, reserved, submitted, confirmed,
  released,
}
use swap_service.Payout.{
  same_state, get_event, has_event, settle_in_transaction, submitted_otherwise,
}
use swap_service.Payout.WellFormed.{WellFormed, unreserved}
use swap_service.Deposit.{get_deposit, put_deposit, delete_deposit}
use swap_service.Deposit.Freezing.{get-delete, get-put, get-sig}
use swap_service.Return.Kinds.{
  by_kind-same, ReturnKind, refund, quarantine, held_status, awaiting_status, terminal_status,
  budget_kind, fee_kind, obligation_id, returned, set_returned, get_returned,
}
use swap_service.Return.Intent.{ReturnRequest, row_request, has_valid_provenance, intent_matches}
use swap_service.Return.Evidence.{IsRequest}
use swap_service.Return.Claim.{prepare_in_transaction}
use swap_service.Return.Submit.{submit_return, delete_source}
use swap_service.Return.Confirm.{
  confirm_found, settled_row, confirm_return, confirm_row, confirmable, settle_return,
  record_return_fee, fees_of,
}
use swap_service.Return.Steps.{
  put-refunded, put-quarantined, settle-eq, with_fee, fee-eq, confirmation, first_event,
  other_event, first_returned, delete-found,
}
use swap_service.Return.Sent.{sent_row, submission, sent_database, submit_prepared}
use swap_service.Return.Outcome.{prepare_in_transaction-Ends, reservation}
use swap_service.Return.Holds.{is_submitted, prepared, PrepareResult}

not_terminal : (k : ReturnKind) → (some "awaiting confirmation" == some (terminal_status k)) ≡ false
not_terminal refund = refl
not_terminal quarantine = refl

module _ (q : ReturnRequest) (e : Json) (r : PendingDeposit) (db : Database) where
  -- The row of the return once its transfer is confirmed.
  abbrev pub final_row : String → ReturnedDeposit
  final_row signature = record (sent_row q e signature) { status = some (terminal_status q.kind) }

  -- A row that was frozen with evidence of its request keeps its provenance.
  sent-provenance :
      (signature : String)
      → IsRequest q
      → intent_matches q e ≡ true
      → has_valid_provenance q.kind (sent_row q e signature) ≡ true
  unfolding has_valid_provenance row_request
  sent-provenance signature (a, b, c, d, m, p, l) h =
      let amount : 0 < q.amount_usdc_units = omega (arith, p, l) in
      let fits : leb q.payout_units q.amount_usdc_units ≡ true = ground (arith, l) in
      simp (
        a,
        c,
        d,
        m,
        require_positive-int q.timestamp b,
        require_positive-int q.amount_usdc_units amount,
        require_positive-int q.payout_units p,
        fits,
        h,
      )

  sent-confirmable :
      (signature : String)
      → IsRequest q
      → confirmable signature (sent_row q e signature) ≡ ok (q.amount_usdc_units, q.payout_units)
  unfolding confirmable
  sent-confirmable signature (a, b, c, d, m, p, l) =
      let amount : 0 < q.amount_usdc_units = omega (arith, p, l) in
      let fits : leb q.payout_units q.amount_usdc_units ≡ true = ground (arith, l) in
      simp (
        str_eq_refl,
        require_positive-int q.amount_usdc_units amount,
        require_positive-int q.payout_units p,
        fits,
      )

  -- The database that a confirmed return leaves.
  abbrev pub settled_database : String → ℕ → ℕ → ℕ → Database
  settled_database signature now later last =
      let D = sent_database q e r db signature now later in
      record (set_returned q.kind (final_row signature ∷ returned q.kind db) db) {
        budget_events =
            confirmation (obligation_id q.kind q.source_sig) signature q.payout_units last
              (budget_kind q.kind)
            ∷ D.budget_events;
        unprocessed_sigs = delete_deposit q.source_sig D.unprocessed_sigs;
        capacity_holds = D.capacity_holds;
        fee_entries =
            with_fee q.source_sig (fee_kind q.kind) (q.amount_usdc_units - q.payout_units) last
              db.fee_entries;
      }

  settle_sent :
      (signature : String) (now later last : ℕ)
      → is_submitted q db ≡ false
      → WellFormed db.budget_events
      → settle_in_transaction
          (obligation_id q.kind q.source_sig)
          signature
          q.payout_units
          last
          (sent_database q e r db signature now later)
        ≡ ok (
          true,
          record (sent_database q e r db signature now later) {
            budget_events =
                confirmation
                  (obligation_id q.kind q.source_sig)
                  signature
                  q.payout_units
                  last
                  (budget_kind q.kind)
                ∷ (sent_database q e r db signature now later).budget_events;
          },
        )
  settle_sent signature now later last fresh w =
      let o = obligation_id q.kind q.source_sig in
      let D = sent_database q e r db signature now later in
      let skip : (s : BudgetState)
          → same_state submitted s ≡ false
          → same_state reserved s ≡ false
          → get_event o s D.budget_events ≡ get_event o s db.budget_events =
        λ s h h'.
          other_event o s (submission q signature later) (reservation q now ∷ db.budget_events) h
          ∙ other_event o s (reservation q now) db.budget_events h' in
      let a : get_event o reserved D.budget_events ≡ some (reservation q now) =
        other_event o reserved (submission q signature later) (reservation q now ∷ db.budget_events)
          refl
        ∙ first_event (reservation q now) db.budget_events in
      let b : submitted_otherwise (get_event o submitted D.budget_events) signature ≡ false =
        ap (λ x. submitted_otherwise x signature)
          (first_event (submission q signature later) (reservation q now ∷ db.budget_events))
        ∙ (rw (str_eq_refl signature) refl) in
      let c : get_event o confirmed D.budget_events ≡ none =
        skip confirmed refl refl ∙ ground (arith, fresh) in
      let n : get_event o reserved db.budget_events ≡ none = ground (arith, fresh) in
      let d : get_event o released D.budget_events ≡ none =
        skip released refl refl ∙ (unreserved o db.budget_events w n).2 in
      settle-eq o signature last (reservation q now) D a b c d

  settle_frozen :
      (signature : String) (now later last : ℕ)
      → is_submitted q db ≡ false
      → WellFormed db.budget_events
      → get_deposit q.source_sig db.unprocessed_sigs ≡ some r
      → fees_of q.source_sig (fee_kind q.kind) db.fee_entries ≡ []
      → settle_return q.kind q.source_sig signature q.amount_usdc_units q.payout_units last
          (sent_row q e signature)
          (sent_database q e r db signature now later)
        ≡ ok (some true, settled_database signature now later last)
  unfolding settle_return
  settle_frozen signature now later last fresh w g fees =
      let s = q.source_sig in
      let D = sent_database q e r db signature now later in
      let fee = q.amount_usdc_units - q.payout_units in
      let D₁ = record D {
        budget_events =
            confirmation (obligation_id q.kind s) signature q.payout_units last (budget_kind q.kind)
            ∷ D.budget_events;
      } in
      let D₂ = record D₁ { fee_entries = with_fee s (fee_kind q.kind) fee last db.fee_entries } in
      let held = record r { status = some (held_status q.kind) } in
      let u = record r { status = some (awaiting_status q.kind) } in
      let r_sig = get-sig s r db.unprocessed_sigs g in
      let found : get_deposit s D.unprocessed_sigs ≡ some u =
        get-put s held u (put_deposit held db.unprocessed_sigs) r_sig
          (get-put s r held db.unprocessed_sigs r_sig g) in
      ap
        (λ m. m >>= λ (settled, db₁).
          if not settled
          then ok (some false, D)
          else (record_return_fee s (fee_kind q.kind) fee last db₁ >>= λ db₂.
              delete_source s (awaiting_status q.kind)
                (settled_row q.kind (sent_row q e signature) db₂)
              >>= λ db₃. ok (some true, db₃)))
        (settle_sent signature now later last fresh w)
      ∙ (ap
            (λ m. m >>= λ db₂.
              delete_source s (awaiting_status q.kind)
                (settled_row q.kind (sent_row q e signature) db₂)
              >>= λ db₃. ok (some true, db₃))
            (fee-eq s (fee_kind q.kind) fee last D₁ fees)
          ∙ (ap (λ m. m >>= λ db₃. ok (some true, db₃))
                (delete-found s (awaiting_status q.kind) u
                  (settled_row q.kind (sent_row q e signature) D₂) found refl)
              ∙ (λ i. ok (
                some true,
                record (settled_database signature now later last) {
                  refunded_sigs =
                      put-refunded q.kind (final_row signature) (sent_row q e signature)
                        (returned q.kind db) db refl i;
                  quarantined_sigs =
                      put-quarantined q.kind (final_row signature) (sent_row q e signature)
                        (returned q.kind db) db refl i;
                },
              ))))

  confirm_sent :
      (signature : String) (now later last : ℕ)
      → IsRequest q
      → intent_matches q e ≡ true
      → is_submitted q db ≡ false
      → WellFormed db.budget_events
      → get_deposit q.source_sig db.unprocessed_sigs ≡ some r
      → fees_of q.source_sig (fee_kind q.kind) db.fee_entries ≡ []
      → confirm_return q.kind q.source_sig signature last
          (sent_database q e r db signature now later)
        ≡ ok (some true, settled_database signature now later last)
  unfolding confirm_return confirm_found confirm_row
  confirm_sent signature now later last valid matches fresh w g fees =
      let s = q.source_sig in
      let D = sent_database q e r db signature now later in
      let row : get_returned s (returned q.kind D) ≡ some (sent_row q e signature) =
        ap (get_returned s) (
          by_kind-same q.kind (sent_row q e signature ∷ returned q.kind db) db.refunded_sigs
            db.quarantined_sigs)
        ∙ first_returned (sent_row q e signature) (returned q.kind db) in
      let has : has_event (obligation_id q.kind s) reserved D.budget_events ≡ true = ap is_some (
        other_event (obligation_id q.kind s) reserved (submission q signature later)
          (reservation q now ∷ db.budget_events) refl
        ∙ first_event (reservation q now) db.budget_events) in
      ap
        (λ x.
          confirm_found q.kind s signature last x
            (has_event (obligation_id q.kind s) reserved D.budget_events) D)
        row
      ∙ (ap (λ x. confirm_found q.kind s signature last (some (sent_row q e signature)) x D) has
          ∙ (ap (λ x. confirm_row q.kind s signature last (sent_row q e signature) x D)
                (sent-confirmable signature valid)
              ∙ (if-false (not (has_valid_provenance q.kind (sent_row q e signature))) _ _
                    (ap not (sent-provenance signature valid matches))
                  ∙ (if-false _ _ _ (not_terminal q.kind)
                      ∙ settle_frozen signature now later last fresh w g fees))))

-- A confirmed return: its source has left the queue, its row is terminal and names the transfer,
-- the spend is confirmed, and the rest of the deposit is recorded as the fee.
abbrev pub IsComplete : ReturnRequest → String → ℕ → Database → Database → Type 0
IsComplete q signature last db db' =
    (get_deposit q.source_sig db'.unprocessed_sigs ≡ none)
    × ((row : ReturnedDeposit) × (get_returned q.source_sig (returned q.kind db') ≡ some row)
        × (row.status ≡ some (terminal_status q.kind))
        × (row.payout_sig ≡ some signature))
    × (get_event (obligation_id q.kind q.source_sig) confirmed db'.budget_events
        ≡ some (
            confirmation (obligation_id q.kind q.source_sig) signature q.payout_units last
              (budget_kind q.kind)))
    × (db'.fee_entries
        ≡ with_fee q.source_sig (fee_kind q.kind) (q.amount_usdc_units - q.payout_units) last
            db.fee_entries)

settled-IsComplete :
    (q : ReturnRequest) (e : Json) (r : PendingDeposit) (db : Database) (signature : String)
    (now later last : ℕ)
    → IsComplete q signature last db (settled_database q e r db signature now later last)
settled-IsComplete q e r db signature now later last =
    let row = final_row q e r db signature in
    (
      get-delete q.source_sig (sent_database q e r db signature now later).unprocessed_sigs,
      (
        row,
        ap (get_returned q.source_sig)
              (by_kind-same q.kind (row ∷ returned q.kind db) db.refunded_sigs db.quarantined_sigs)
            ∙ first_returned row (returned q.kind db),
        refl,
        refl,
      ),
      first_event
          (confirmation (obligation_id q.kind q.source_sig) signature q.payout_units last
            (budget_kind q.kind))
          (sent_database q e r db signature now later).budget_events,
      refl,
    )

-- A prepared return never gets stuck: whatever signature its transfer gets can be recorded, and
-- confirming that signature then completes it. The ledger is well formed, and no fee of the source
-- was recorded before.
pub prepared_completes :
    (q : ReturnRequest) (supplied : Bool) (evidence : Json) (cap now later last : ℕ)
    (signature : String) (res : PrepareResult) (db db' : Database)
    → IsRequest q
    → intent_matches q evidence ≡ true
    → WellFormed db.budget_events
    → fees_of q.source_sig (fee_kind q.kind) db.fee_entries ≡ []
    → prepare_in_transaction q supplied evidence cap now db ≡ ok (res, db')
    → res.status ≡ prepared
    → (db₁ db₂ : Database) × (submit_return q.kind q.source_sig signature later db'
        ≡ ok (true, db₁))
      × (confirm_return q.kind q.source_sig signature last db₁ ≡ ok (some true, db₂))
      × IsComplete q signature last db db₂
prepared_completes q supplied evidence cap now later last signature res db db' valid matches w fees
      h is_prepared =
    elim (Ensures-ok _ _ (prepare_in_transaction-Ends q supplied evidence cap now db matches) h) [
      | inl (ne, _, _, _, _) ↦ absurd (ne is_prepared)
      | inr (r, g, (e, m, _, fresh, _, _, _, _, _, _, same)) ↦ (
        sent_database q e r db signature now later,
        settled_database q e r db signature now later last,
        subst
            (λ d.
              submit_return q.kind q.source_sig signature later d
              ≡ ok (true, sent_database q e r db signature now later))
            (sym same) (submit_prepared q e r db signature now later fresh g),
        confirm_sent q e r db signature now later last valid m fresh w g fees,
        settled-IsComplete q e r db signature now later last,
      )
    ]
