-- ===== src/Payout/Checked.antt =====
-- A call that returns has passed its checks, and is the transaction on the checked arguments.
use swap_service.Base.{
  ℕ, String, ◌≡◌, Bool, ok, Value, >>=-eq-ok, require_positive, require_nonnegative,
}
use swap_service.Database.{Database}
use swap_service.Payout.{
  reserve_in_transaction, reserve, release_in_transaction, release, submit_in_transaction,
  record_submission, settle_in_transaction, settle, require_text,
}

module _ (now : ℕ) (db : Database) {r : Bool × Database} where
  pub reserve_checked :
      (o k : String) (amount cap_units window : Value)
      → reserve o k amount cap_units window now db ≡ ok r
      → (o' : String) × (k' : String) × (u : ℕ) × (c : ℕ) × (w : ℕ) × (require_text o 500 ≡ ok o')
        × (require_positive amount ≡ ok u)
        × (require_nonnegative cap_units ≡ ok c)
        × (require_positive window ≡ ok w)
        × (reserve_in_transaction o' k' u c w now db ≡ ok r)
  unfolding reserve
  reserve_checked o k amount cap_units window h =
      let (o', po, h₁) = >>=-eq-ok (require_text o 500) _ h in
      let (k', _, h₂) = >>=-eq-ok (require_text k 100) _ h₁ in
      let (u, pu, h₃) = >>=-eq-ok (require_positive amount) _ h₂ in
      let (c, pc, h₄) = >>=-eq-ok (require_nonnegative cap_units) _ h₃ in
      let (w, pw, h₅) = >>=-eq-ok (require_positive window) _ h₄ in
      (o', k', u, c, w, po, pu, pc, pw, h₅)

  pub release_checked :
      (o reason : String)
      → release o reason now db ≡ ok r
      → (o' : String) × (why : String) × (require_text o 500 ≡ ok o')
        × (release_in_transaction o' why now db ≡ ok r)
  unfolding release
  release_checked o reason h =
      let (o', po, h₁) = >>=-eq-ok (require_text o 500) _ h in
      let (why, _, h₂) = >>=-eq-ok (require_text reason 1000) _ h₁ in (o', why, po, h₂)

  pub record_submission_checked :
      (o s : String)
      → record_submission o s now db ≡ ok r
      → (o' : String) × (s' : String) × (require_text o 500 ≡ ok o')
        × (require_text s 500 ≡ ok s')
        × (submit_in_transaction o' s' now db ≡ ok r)
  unfolding record_submission
  record_submission_checked o s h =
      let (o', po, h₁) = >>=-eq-ok (require_text o 500) _ h in
      let (s', ps, h₂) = >>=-eq-ok (require_text s 500) _ h₁ in (o', s', po, ps, h₂)

  pub settle_checked :
      (o s : String) (amount : Value)
      → settle o s amount now db ≡ ok r
      → (o' : String) × (s' : String) × (u : ℕ) × (require_text o 500 ≡ ok o')
        × (require_text s 500 ≡ ok s')
        × (require_positive amount ≡ ok u)
        × (settle_in_transaction o' s' u now db ≡ ok r)
  unfolding settle
  settle_checked o s amount h =
      let (o', po, h₁) = >>=-eq-ok (require_text o 500) _ h in
      let (s', ps, h₂) = >>=-eq-ok (require_text s 500) _ h₁ in
      let (u, pu, h₃) = >>=-eq-ok (require_positive amount) _ h₂ in (o', s', u, po, ps, pu, h₃)
