-- ===== src/Retry/References.antt =====
-- The references that `next_reference` hands out, while processed_sigs changes between its calls.
use swap_service.Base.{ℕ, ◌≤◌, ◌<◌, ◌≡◌, ◌⊎◌, inl, inr, Option, none, some, List, [], ◌∷◌, arith}
use swap_service.Retry.Counters.{max_reference, next_reference}

-- The references of processed_sigs, the counter's row, and what has been handed out.
pub record Numbering : Type 0 where
  pub references : List (Option ℕ)
  pub counter : Option ℕ
  pub handed : List ℕ

abbrev pub Stored : ℕ → List (Option ℕ) → Type 0
Stored r [] = ⊥
Stored r (none ∷ os) = Stored r os
Stored r (some x ∷ os) = (x ≡ r) ⊎ Stored r os

abbrev pub Handed : ℕ → List ℕ → Type 0
Handed r [] = ⊥
Handed r (x ∷ xs) = (x ≡ r) ⊎ Handed r xs

-- A call of `next_reference`, or a change of processed_sigs that stores only references which it
-- held before or which have been handed out.
pub data Step : Numbering → Numbering → Type 0 where
  hand_out :
      (s : Numbering)
      → Step s (record s {
        counter = (next_reference s.references s.counter).1;
        handed = (next_reference s.references s.counter).0 ∷ s.handed;
      })
  store :
      (s : Numbering) (references : List (Option ℕ))
      → ((r : ℕ) → Stored r references → Stored r s.references ⊎ Handed r s.handed)
      → Step s (record s { references = references })

pub data Reach (s : Numbering) : Numbering → Type 0 where
  here : Reach s s
  next : {t u : Numbering} → Reach s t → Step t u → Reach s u

-- Before the first call, with any table.
abbrev pub start : List (Option ℕ) → Numbering
start references = record { references = references; counter = none; handed = [] }

Stored-le-max_reference : (r : ℕ) (os : List (Option ℕ)) → Stored r os → r ≤ max_reference os
unfolding max_reference
Stored-le-max_reference r [] h = elim h [ ]
Stored-le-max_reference r (none ∷ os) h = Stored-le-max_reference r os h
Stored-le-max_reference r (some x ∷ os) (inl e) = ground (arith, e)
Stored-le-max_reference r (some x ∷ os) (inr h) = ground (arith, Stored-le-max_reference r os h)

-- The counter's row bounds every reference; without it nothing was handed out.
abbrev Bounded : Option ℕ → List (Option ℕ) → List ℕ → Type 0
Bounded none os hs = (r : ℕ) → ¬ Handed r hs
Bounded (some v) os hs = ((r : ℕ) → Stored r os → r ≤ v) × ((r : ℕ) → Handed r hs → r ≤ v)

hand_out-Bounded :
    (counter : Option ℕ) (os : List (Option ℕ)) (hs : List ℕ)
    → Bounded counter os hs
    → Bounded (next_reference os counter).1 os ((next_reference os counter).0 ∷ hs)
unfolding next_reference
hand_out-Bounded none os hs b = (
  λ r h. ground (arith, Stored-le-max_reference r os h),
  λ r h. elim h [ inl e ↦ ground (arith, e) | inr k ↦ absurd (b r k) ],
)
hand_out-Bounded (some v) os hs (b, c) = (
  λ r h. ground (arith, b r h),
  λ r h. elim h [ inl e ↦ ground (arith, e) | inr k ↦ ground (arith, c r k) ],
)

store-Bounded :
    (counter : Option ℕ) (os ps : List (Option ℕ)) (hs : List ℕ)
    → ((r : ℕ) → Stored r ps → Stored r os ⊎ Handed r hs)
    → Bounded counter os hs
    → Bounded counter ps hs
store-Bounded none os ps hs f b = b
store-Bounded (some v) os ps hs f (b, c) =
    (λ r h. elim (f r h) [ inl k ↦ b r k | inr k ↦ c r k ], c)

Reach-Bounded :
    {s t : Numbering}
    → Bounded s.counter s.references s.handed
    → Reach s t
    → Bounded t.counter t.references t.handed
Reach-Bounded b here = b
Reach-Bounded b (next p (hand_out s)) =
    hand_out-Bounded s.counter s.references s.handed (Reach-Bounded b p)
Reach-Bounded b (next p (store s os f)) =
    store-Bounded s.counter s.references os s.handed f (Reach-Bounded b p)

-- The reference is greater than every one stored and every one handed out.
abbrev pub IsFresh : ℕ → Numbering → Type 0
IsFresh n s = ((r : ℕ) → Stored r s.references → r < n) × ((r : ℕ) → Handed r s.handed → r < n)

Bounded-IsFresh :
    (counter : Option ℕ) (os : List (Option ℕ)) (hs : List ℕ)
    → Bounded counter os hs
    → ((r : ℕ) → Stored r os → r < (next_reference os counter).0)
      × ((r : ℕ) → Handed r hs → r < (next_reference os counter).0)
unfolding next_reference
Bounded-IsFresh none os hs b =
    (λ r h. ground (arith, Stored-le-max_reference r os h), λ r h. absurd (b r h))
Bounded-IsFresh (some v) os hs (b, c) = (λ r h. ground (arith, b r h), λ r h. ground (arith, c r h))

-- Whatever processed_sigs held before the first call, and however calls of `next_reference` and
-- changes of that table follow each other, the next reference is greater than every reference that
-- is stored and every one that was handed out, so none is used twice. The changes store no reference
-- that was neither there nor handed out.
pub next_reference-IsFresh :
    (references : List (Option ℕ)) (s : Numbering)
    → Reach (start references) s
    → IsFresh (next_reference s.references s.counter).0 s
next_reference-IsFresh references s p =
    Bounded-IsFresh s.counter s.references s.handed (Reach-Bounded (λ r h. h) p)
