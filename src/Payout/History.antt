-- ===== src/Payout/History.antt =====
-- Histories: any sequence of calls on the payout budget.
use swap_service.Base.{
  ℕ, String, ◌≡◌, refl, Bool, true, false, List, [], ◌∷◌, arith, leb, Result, ok, err, Value,
  value_error, ◌>>=◌, require_positive, require_nonnegative, require, int, pos, negsuc, zero, suc,
}
use swap_service.Database.{Database, after}
use swap_service.Payout.{reserve, release, record_submission, settle, reconstruct, require_text}
use swap_service.Payout.WellFormed.{WellFormed}
use swap_service.Payout.Preserve.{
  Sound, reserve_in_transaction-Sound, release_in_transaction-Sound, submit_in_transaction-Sound,
  settle_in_transaction-Sound,
}
use swap_service.Payout.Rebuild.{reconstruct_in_transaction-WellFormed}

-- A check of an argument raises a ValueError or nothing.
abbrev IsCheck : {A : Type 0} → Result A → Type 0
IsCheck (ok a) = Unit
IsCheck (err e) = e ≡ value_error

require_text-IsCheck : (v : String) (n : ℕ) → IsCheck (require_text v n)
unfolding require_text
require_text-IsCheck v n = ground arith

require_positive-IsCheck : (v : Value) → IsCheck (require_positive v)
unfolding require_positive
require_positive-IsCheck (int (pos zero)) = refl
require_positive-IsCheck (int (pos (suc n))) = tt
require_positive-IsCheck (int (negsuc n)) = refl
require_positive-IsCheck _ = refl

require_nonnegative-IsCheck : (v : Value) → IsCheck (require_nonnegative v)
unfolding require_nonnegative
require_nonnegative-IsCheck (int (pos n)) = tt
require_nonnegative-IsCheck (int (negsuc n)) = refl
require_nonnegative-IsCheck _ = refl

require-IsCheck : (b : Bool) → IsCheck (require b value_error)
require-IsCheck true = tt
require-IsCheck false = refl

>>=-Sound :
    {A : Type 0} (m : Result A) (f : A → Result (Bool × Database))
    → IsCheck m
    → ((a : A) → Sound (f a))
    → Sound (m >>= f)
>>=-Sound (ok a) f c h = h a
>>=-Sound (err e) f c h = rw c (λ p. cc p)

-- The calls, with their arguments as the caller gives them.
pub data Call : Type 0 where
  reserves : String → String → Value → Value → Value → Call
  releases : String → String → Call
  submits : String → String → Call
  settles : String → String → Value → Call
  reconstructs : String → String → Value → Value → String → Call

unfoldable pub call : Call → ℕ → Database → Result (Bool × Database)
call (reserves o k amount cap window) now = reserve o k amount cap window now
call (releases o reason) now = release o reason now
call (submits o s) now = record_submission o s now
call (settles o s amount) now = settle o s amount now
call (reconstructs o s amount t k) now = reconstruct o s amount t k now

unfoldable pub run : List (ℕ × Call) → Database → Database
run [] db = db
run ((now, c) ∷ cs) db = run cs (after db (call c now db))

-- Every call keeps the event table well formed, and never breaks its UNIQUE constraint.
pub call-Sound :
    (c : Call) (now : ℕ) (db : Database) → WellFormed db.budget_events → Sound (call c now db)
unfolding call reserve release record_submission settle reconstruct
call-Sound (reserves o k amount cap window) now db w =
    >>=-Sound _ _ (require_text-IsCheck o 500) λ o'.
      >>=-Sound _ _ (require_text-IsCheck k 100) λ k'.
        >>=-Sound _ _ (require_positive-IsCheck amount) λ units.
          >>=-Sound _ _ (require_nonnegative-IsCheck cap) λ cap'.
            >>=-Sound _ _ (require_positive-IsCheck window)
              λ window'. reserve_in_transaction-Sound o' k' units cap' window' now db w
call-Sound (releases o reason) now db w = >>=-Sound _ _ (require_text-IsCheck o 500) λ o'.
    >>=-Sound _ _ (require_text-IsCheck reason 1000)
      λ r'. release_in_transaction-Sound o' r' now db w
call-Sound (submits o s) now db w = >>=-Sound _ _ (require_text-IsCheck o 500) λ o'.
    >>=-Sound _ _ (require_text-IsCheck s 500) λ s'. submit_in_transaction-Sound o' s' now db w
call-Sound (settles o s amount) now db w = >>=-Sound _ _ (require_text-IsCheck o 500) λ o'.
    >>=-Sound _ _ (require_text-IsCheck s 500) λ s'.
      >>=-Sound _ _ (require_positive-IsCheck amount)
        λ units. settle_in_transaction-Sound o' s' units now db w
call-Sound (reconstructs o s amount t k) now db w = >>=-Sound _ _ (require_text-IsCheck o 500) λ o'.
    >>=-Sound _ _ (require_text-IsCheck k 100) λ k'.
      >>=-Sound _ _ (require_text-IsCheck s 500) λ s'.
        >>=-Sound _ _ (require_positive-IsCheck amount) λ units.
          >>=-Sound _ _ (require_positive-IsCheck t) λ t'.
            >>=-Sound _ _ (require-IsCheck (leb t' now))
              λ _. reconstruct_in_transaction-WellFormed o' k' s' units t' db w

after-WellFormed :
    (db : Database) (r : Result (Bool × Database))
    → WellFormed db.budget_events
    → Sound r
    → WellFormed (after db r).budget_events
after-WellFormed db (ok a) w h = h
after-WellFormed db (err e) w h = w

-- Any history of budget calls, with the errors among them rolled back, keeps the event table well
-- formed: each row stands on one matching reservation, and none is recorded twice.
pub run-WellFormed :
    (cs : List (ℕ × Call)) (db : Database)
    → WellFormed db.budget_events
    → WellFormed (run cs db).budget_events
unfolding run
run-WellFormed [] db w = w
run-WellFormed ((now, c) ∷ cs) db w =
    run-WellFormed cs _ (after-WellFormed db (call c now db) w (call-Sound c now db w))
