-- ===== src/Payout/Lifecycle.antt =====
-- What stays true of one obligation through any later history.
use swap_service.Base.{
  ℕ, String, ◌≡◌, refl, ap, ◌≢◌, Bool, true, false, Option, none, some, List, [], ◌∷◌, arith,
  string_eq, str_eq_iff, Bool-cases, inl, inr, Result, ok, err, ◌||◌, not, ◌>>=◌, require, leb,
  value_error, require_positive, require_nonnegative, Value, is_some,
}
use mathlib.Core.Option
use swap_service.Database.{BudgetState, reserved, submitted, BudgetEvent, Database, after}
use swap_service.Payout.{
  get_event, has_event, reserve_in_transaction, release_in_transaction, submit_in_transaction,
  settle_in_transaction, reconstruct_in_transaction, reserve, release, settle, record_submission,
  reconstruct, require_text, complete_event, restamp, restamped, has_conflict, all_expected,
}
use swap_service.Payout.Preserve.{get_event-restamp}
use swap_service.Payout.History.{
  Call, reserves, releases, submits, settles, reconstructs, call, run,
}
use swap_service.Payout.Checked.{reserve_checked, release_checked, record_submission_checked}

module _ (p : String) (st : BudgetState) where
  -- An event that is recorded stays recorded.
  Keeps : Database → Result (Bool × Database) → Type 0
  Keeps db (ok (done, db')) =
      has_event p st db.budget_events ≡ true → has_event p st db'.budget_events ≡ true
  Keeps db (err e) = Unit

  reserve_in_transaction-Keeps :
      (o k : String) (units c window now : ℕ) (db : Database)
      → Keeps db (reserve_in_transaction o k units c window now db)
  unfolding reserve_in_transaction Keeps
  reserve_in_transaction-Keeps o k units c window now db = ground arith

  release_in_transaction-Keeps :
      (o reason : String) (now : ℕ) (db : Database)
      → Keeps db (release_in_transaction o reason now db)
  unfolding release_in_transaction Keeps
  release_in_transaction-Keeps o reason now db = ground arith

  submit_in_transaction-Keeps :
      (o s : String) (now : ℕ) (db : Database) → Keeps db (submit_in_transaction o s now db)
  unfolding submit_in_transaction Keeps
  submit_in_transaction-Keeps o s now db = ground arith

  settle_in_transaction-Keeps :
      (o s : String) (units now : ℕ) (db : Database)
      → Keeps db (settle_in_transaction o s units now db)
  unfolding settle_in_transaction Keeps
  settle_in_transaction-Keeps o s units now db = ground arith

  complete_event-Keeps :
      (e : BudgetEvent) (es : List BudgetEvent)
      → has_event p st es ≡ true
      → has_event p st (complete_event e es) ≡ true
  complete_event-Keeps e es h = ground arith

  restamp-Keeps :
      (o : String) (t : ℕ) (es : List BudgetEvent)
      → has_event p st es ≡ true
      → has_event p st (restamp o t es) ≡ true
  restamp-Keeps o t es h = rw (get_event-restamp o p t st es) (kept (get_event p st es) h)
    where
      kept :
          (r : Option BudgetEvent)
          → is_some r ≡ true
          → is_some (Option.map (restamped o t) r) ≡ true
      kept none e = e
      kept (some r) e = refl

  reconstruct_in_transaction-Keeps :
      (o k s : String) (units t : ℕ) (db : Database)
      → Keeps db (ok (reconstruct_in_transaction o k s units t db))
  unfolding reconstruct_in_transaction Keeps
  reconstruct_in_transaction-Keeps o k s units t db h =
      elim (Bool-cases
        (has_conflict o s db.budget_events || not (all_expected o k units s db.budget_events))) [
          | inl refused ↦ rw refused h
          | inr fine ↦ rw fine (
              restamp-Keeps o t _
                (complete_event-Keeps _ _ (complete_event-Keeps _ _ (complete_event-Keeps _ _ h))))
        ]

  >>=-Keeps :
      (db : Database) {A : Type 0} (m : Result A) (f : A → Result (Bool × Database))
      → ((a : A) → Keeps db (f a))
      → Keeps db (m >>= f)
  unfolding Keeps
  >>=-Keeps db (ok a) f h = h a
  >>=-Keeps db (err e) f h = tt

  call-Keeps : (c : Call) (now : ℕ) (db : Database) → Keeps db (call c now db)
  unfolding call reserve release record_submission settle reconstruct
  call-Keeps (reserves o k amount c window) now db = >>=-Keeps db (require_text o 500) _ λ o'.
      >>=-Keeps db (require_text k 100) _ λ k'. >>=-Keeps db (require_positive amount) _ λ units.
        >>=-Keeps db (require_nonnegative c) _ λ c'.
          >>=-Keeps db (require_positive window) _
            λ window'. reserve_in_transaction-Keeps o' k' units c' window' now db
  call-Keeps (releases o reason) now db = >>=-Keeps db (require_text o 500) _ λ o'.
      >>=-Keeps db (require_text reason 1000) _ λ r'. release_in_transaction-Keeps o' r' now db
  call-Keeps (submits o s) now db =
      >>=-Keeps db (require_text o 500) _
        λ o'. >>=-Keeps db (require_text s 500) _ λ s'. submit_in_transaction-Keeps o' s' now db
  call-Keeps (settles o s amount) now db = >>=-Keeps db (require_text o 500) _ λ o'.
      >>=-Keeps db (require_text s 500) _ λ s'.
        >>=-Keeps db (require_positive amount) _
          λ units. settle_in_transaction-Keeps o' s' units now db
  call-Keeps (reconstructs o s amount t k) now db = >>=-Keeps db (require_text o 500) _ λ o'.
      >>=-Keeps db (require_text k 100) _ λ k'. >>=-Keeps db (require_text s 500) _ λ s'.
        >>=-Keeps db (require_positive amount) _ λ units. >>=-Keeps db (require_positive t) _ λ t'.
          >>=-Keeps db (require (leb t' now) value_error) _
            λ _. reconstruct_in_transaction-Keeps o' k' s' units t' db

  after-Keeps :
      (db : Database) (r : Result (Bool × Database))
      → Keeps db r
      → has_event p st db.budget_events ≡ true
      → has_event p st (after db r).budget_events ≡ true
  unfolding Keeps
  after-Keeps db (ok (done, db')) k h = k h
  after-Keeps db (err e) k h = h

  run-Keeps :
      (cs : List (ℕ × Call)) (db : Database)
      → has_event p st db.budget_events ≡ true
      → has_event p st (run cs db).budget_events ≡ true
  unfolding run
  run-Keeps [] db h = h
  run-Keeps ((now, c) ∷ cs) db h =
      run-Keeps cs _ (after-Keeps db (call c now db) (call-Keeps c now db) h)

ok_text : {a b : String} {m : Result String} → m ≡ ok a → m ≡ ok b → a ≡ b
ok_text {a} {b} {m} h k = ground arith

has_event_same :
    (st : BudgetState) (es : List BudgetEvent) {p q : String}
    → p ≡ q
    → has_event p st es ≡ true
    → has_event q st es ≢ false
has_event_same st es same t f = cc (ap (λ z. has_event z st es) same)

reserve_in_transaction_records :
    (o k : String) (units c window now : ℕ) (db db' : Database)
    → reserve_in_transaction o k units c window now db ≡ ok (true, db')
    → (has_event o reserved db.budget_events ≡ false)
      × (has_event o reserved db'.budget_events ≡ true)
unfolding reserve_in_transaction
reserve_in_transaction_records o k units c window now db db' h = ground (arith, str_eq_iff o o)

submit_in_transaction_records :
    (o s : String) (now : ℕ) (db db' : Database)
    → submit_in_transaction o s now db ≡ ok (true, db')
    → has_event o submitted db'.budget_events ≡ true
unfolding submit_in_transaction
submit_in_transaction_records o s now db db' h = ground (arith, str_eq_iff o o)

release_in_transaction_unsent :
    (o why : String) (now : ℕ) (db db' : Database)
    → release_in_transaction o why now db ≡ ok (true, db')
    → has_event o submitted db.budget_events ≡ false
unfolding release_in_transaction
release_in_transaction_unsent o why now db db' h = ground arith

-- A reservation is granted at most once: after one is granted, no later history of calls lets the
-- same obligation be reserved again, whatever the amount, the cap and the window.
pub reserve_once :
    (o k k' : String) (a c w a' c' w' : Value) (now later : ℕ) (db db₁ db₂ : Database)
    (cs : List (ℕ × Call))
    → reserve o k a c w now db ≡ ok (true, db₁)
    → reserve o k' a' c' w' later (run cs db₁) ≢ ok (true, db₂)
reserve_once o k k' a c w a' c' w' now later db db₁ db₂ cs first second =
    let (p, _, u, v, x, pp, _, _, _, e) = reserve_checked now db o k a c w first in
    let (q, _, u', v', x', pq, _, _, _, e') =
      reserve_checked later (run cs db₁) o k' a' c' w' second in
    has_event_same reserved _ (ok_text pp pq)
      (run-Keeps p reserved cs db₁ (reserve_in_transaction_records p _ u v x now db db₁ e).1)
      (reserve_in_transaction_records q _ u' v' x' later _ db₂ e').0

-- Once a submission is recorded, no later history of calls lets the capacity be released.
pub submission_blocks_release :
    (o s reason : String) (now later : ℕ) (db db₁ db₂ : Database) (cs : List (ℕ × Call))
    → record_submission o s now db ≡ ok (true, db₁)
    → release o reason later (run cs db₁) ≢ ok (true, db₂)
submission_blocks_release o s reason now later db db₁ db₂ cs sent freed =
    let (p, _, pp, _, e) = record_submission_checked now db o s sent in
    let (q, why, pq, e') = release_checked later (run cs db₁) o reason freed in
    has_event_same submitted _ (ok_text pp pq)
      (run-Keeps p submitted cs db₁ (submit_in_transaction_records p _ now db db₁ e))
      (release_in_transaction_unsent q why later _ db₂ e')
