-- ===== src/Debit/Fixed.antt =====
-- No call on the queue changes the intent of a debit.
use swap_service.Base.{
  ℤ, ◌==◌, string_eq, str_eq_iff, int_eq, int_beq_iff, ◌&&◌, ◌≡◌, refl, ap, subst, ◌∙◌, String,
  Bool, Bool-cases, inl, inr, true, Option, none, some, List, Result, ok, err, ◌>>=◌, ℕ_eq,
  if-Holds, arith,
}
use swap_service.Database.{PendingDeposit, Database}
use swap_service.Deposit.{get_deposit}
use swap_service.Deposit.Freezing.{get-put, get-put_other, get-sig}
use swap_service.Debit.Intent.{
  is_unset_or, is_debitable, with_row, intended_row, set_reference, set_intent, edit_row,
}
use swap_service.Debit.History.{or_unchanged}

-- The deposit's row has this intent.
abbrev pub HasRow : String → ℤ → ℤ → List PendingDeposit → Type 0
HasRow s n amount rs =
    (r : PendingDeposit) × (get_deposit s rs ≡ some r)
    × (r.reference ≡ some n)
    × (r.amount_usdd_units ≡ some amount)

abbrev pub HasIntent : String → ℤ → ℤ → Database → Type 0
HasIntent s n amount db = HasRow s n amount db.unprocessed_sigs

-- A row that replaces the one of its key, and has the intent wherever that one has it.
pub with_row-HasIntent :
    (s t : String) (n amount : ℤ) (q r : PendingDeposit) (db : Database)
    → get_deposit t db.unprocessed_sigs ≡ some q
    → r.sig ≡ q.sig
    → (q.reference ≡ some n → r.reference ≡ some n)
    → (q.amount_usdd_units ≡ some amount → r.amount_usdd_units ≡ some amount)
    → HasIntent s n amount db
    → HasIntent s n amount (with_row r db)
with_row-HasIntent s t n amount q r db g same f k (p, h, b, c) =
    let q_sig = get-sig t q db.unprocessed_sigs g in
    elim (Bool-cases (r.sig == s)) [
      | inr e ↦ (p, get-put_other s r db.unprocessed_sigs e ∙ h, b, c)
      | inl e ↦
          let r_sig : r.sig ≡ s = ground (arith, e, str_eq_iff r.sig s) in
          let t_eq : t ≡ s = cc in
          let found : get_deposit s db.unprocessed_sigs ≡ some q =
            subst (λ x. get_deposit x db.unprocessed_sigs ≡ some q) t_eq g in
          let q_eq : q ≡ p = ground (arith, found, h) in
          (
            r,
            get-put s q r db.unprocessed_sigs r_sig found,
            f (ap (λ x. x.reference) q_eq ∙ b),
            k (ap (λ x. x.amount_usdd_units) q_eq ∙ c),
          )
    ]

-- A column that may be set to a number and holds one holds that number.
pub agrees : (m n : ℤ) (o : Option ℤ) → is_unset_or m o ≡ true → o ≡ some n → some m ≡ some n
agrees m n o e k = ground (arith, e, k, int_beq_iff n m)

pub both_right : (a b c : Bool) → (a && b && c) ≡ true → (b ≡ true) × (c ≡ true)
both_right a b c h = ground (arith, h)

pub set_reference-HasIntent :
    (s t : String) (n amount m : ℤ) (o : Option PendingDeposit) (db : Database)
    → get_deposit t db.unprocessed_sigs ≡ o
    → HasIntent s n amount db
    → HasIntent s n amount (or_unchanged db (set_reference m o db))
unfolding set_reference
set_reference-HasIntent s t n amount m none db g h = h
set_reference-HasIntent s t n amount m (some q) db g h =
    if-Holds (λ d. HasIntent s n amount (or_unchanged db d)) (is_unset_or m q.reference) _ _
      (λ e.
        with_row-HasIntent s t n amount q (record q { reference = some m }) db g refl
          (λ k. agrees m n q.reference e k) (λ k. k) h)
      (λ e. h)

pub set_intent-HasIntent :
    (s t : String) (n amount m other : ℤ) (o : Option PendingDeposit) (db : Database)
    → get_deposit t db.unprocessed_sigs ≡ o
    → HasIntent s n amount db
    → HasIntent s n amount (or_unchanged db (set_intent m other o db))
unfolding set_intent
set_intent-HasIntent s t n amount m other none db g h = h
set_intent-HasIntent s t n amount m other (some q) db g h =
    if-Holds (λ d. HasIntent s n amount (or_unchanged db d))
      (is_debitable q.status && is_unset_or m q.reference && is_unset_or other q.amount_usdd_units)
      _ _
      (λ e.
        with_row-HasIntent s t n amount q (intended_row m other q) db g refl
          (λ k.
            agrees m n q.reference
              (both_right (is_debitable q.status) (is_unset_or m q.reference)
                (is_unset_or other q.amount_usdd_units) e).0
              k)
          (λ k.
            agrees other amount q.amount_usdd_units
              (both_right (is_debitable q.status) (is_unset_or m q.reference)
                (is_unset_or other q.amount_usdd_units) e).1
              k)
          h)
      (λ e. h)

pub edit_row-HasIntent :
    (s t : String) (n amount : ℤ) (f : PendingDeposit → PendingDeposit) (o : Option PendingDeposit)
    (db : Database)
    → get_deposit t db.unprocessed_sigs ≡ o
    → ((q : PendingDeposit) → (f q).sig ≡ q.sig)
    → ((q : PendingDeposit) → (f q).reference ≡ q.reference)
    → ((q : PendingDeposit) → (f q).amount_usdd_units ≡ q.amount_usdd_units)
    → HasIntent s n amount db
    → HasIntent s n amount (edit_row f o db)
edit_row-HasIntent s t n amount f none db g a b c h = h
edit_row-HasIntent s t n amount f (some q) db g a b c h =
    with_row-HasIntent s t n amount q (f q) db g (a q) (λ k. b q ∙ k) (λ k. c q ∙ k) h

pub or_unchanged-HasIntent {ℓ} :
    {A : Type ℓ} (s : String) (n amount : ℤ) (m : Result A) (f : A → Result Database)
    (db : Database)
    → HasIntent s n amount db
    → ((a : A) → HasIntent s n amount (or_unchanged db (f a)))
    → HasIntent s n amount (or_unchanged db (m >>= f))
or_unchanged-HasIntent s n amount (err e) f db h k = h
or_unchanged-HasIntent s n amount (ok a) f db h k = k a
