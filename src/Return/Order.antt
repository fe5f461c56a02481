-- ===== src/Return/Order.antt =====
-- The order in which the holds are served.

use swap_service.Base.{
  if-Holds, subst, ℕ, ◌≤◌, ◌≡◌, ◌⊎◌, inl, inr, ◌==◌, string_eq, str_eq_iff, true, false, Option,
  none, some, List, [], ◌∷◌, All, Option-cases, arith, String,
}
use swap_service.Database.{CapacityHold}
use swap_service.Return.Holds.{
  is_feasible, held_before, older, oldest_hold, waits_for_older, waits_at,
}

-- A hold that the cap could not admit, or one that is no older than `m`.
abbrev pub NotBefore : ℕ → CapacityHold → CapacityHold → Type 0
NotBefore cap m h = (is_feasible cap h ≡ false) ⊎ (m.first_held_timestamp ≤ h.first_held_timestamp)

NotBefore-trans :
    (cap : ℕ) (m n : CapacityHold) (hs : List CapacityHold)
    → m.first_held_timestamp ≤ n.first_held_timestamp
    → All (NotBefore cap n) hs
    → All (NotBefore cap m) hs
NotBefore-trans cap m n [] l h = tt
NotBefore-trans cap m n (g ∷ gs) l (a, h) =
    (elim a [ inl b ↦ inl b | inr b ↦ inr (omega (arith, l, b)) ], NotBefore-trans cap m n gs l h)

-- The hold that is served first is one that the cap could admit, and none is older.
abbrev pub Oldest : ℕ → List CapacityHold → Option CapacityHold → Type 0
Oldest cap hs none = All (λ h. is_feasible cap h ≡ false) hs
Oldest cap hs (some m) = (is_feasible cap m ≡ true) × All (NotBefore cap m) hs

infeasible-NotBefore :
    (cap : ℕ) (m : CapacityHold) (hs : List CapacityHold)
    → All (λ h. is_feasible cap h ≡ false) hs
    → All (NotBefore cap m) hs
infeasible-NotBefore cap m [] h = tt
infeasible-NotBefore cap m (g ∷ gs) (a, h) = (inl a, infeasible-NotBefore cap m gs h)

first_le :
    (g h : CapacityHold) → held_before g h ≡ true → g.first_held_timestamp ≤ h.first_held_timestamp
first_le g h b = ground (arith, b)

last_le :
    (g h : CapacityHold) → held_before g h ≡ false → h.first_held_timestamp ≤ g.first_held_timestamp
last_le g h b = ground (arith, b)

Oldest-skip :
    (cap : ℕ) (h : CapacityHold) (hs : List CapacityHold) (o : Option CapacityHold)
    → is_feasible cap h ≡ false
    → Oldest cap hs o
    → Oldest cap (h ∷ hs) o
Oldest-skip cap h hs none f all = (f, all)
Oldest-skip cap h hs (some m) f (fm, all) = (fm, (inl f, all))

Oldest-feasible :
    (cap : ℕ) (h : CapacityHold) (hs : List CapacityHold) (o : Option CapacityHold)
    → is_feasible cap h ≡ true
    → Oldest cap hs o
    → Oldest cap (h ∷ hs) (some (older h o))
Oldest-feasible cap h hs none f none_feasible =
    (f, (inr (omega arith), infeasible-NotBefore cap h hs none_feasible))
Oldest-feasible cap h hs (some m) f (fm, all) =
    if-Holds (λ x. Oldest cap (h ∷ hs) (some x)) (held_before m h) m h
      (λ b. (fm, (inr (first_le m h b), all)))
      λ b. (f, (inr (omega arith), NotBefore-trans cap h m hs (last_le m h b) all))

pub oldest_hold-Oldest : (cap : ℕ) (hs : List CapacityHold) → Oldest cap hs (oldest_hold cap hs)
unfolding oldest_hold
oldest_hold-Oldest cap [] = tt
oldest_hold-Oldest cap (h ∷ hs) =
    if-Holds (Oldest cap (h ∷ hs)) (is_feasible cap h) (some (older h (oldest_hold cap hs)))
      (oldest_hold cap hs)
      (λ f. Oldest-feasible cap h hs (oldest_hold cap hs) f (oldest_hold-Oldest cap hs))
      λ f. Oldest-skip cap h hs (oldest_hold cap hs) f (oldest_hold-Oldest cap hs)

-- A source that does not wait is first: the cap could admit no hold, or the source has one, and
-- every other that the cap could admit was made no earlier.
pub first_served :
    (source : String) (cap : ℕ) (hs : List CapacityHold)
    → waits_for_older source cap hs ≡ false
    → All (λ h. is_feasible cap h ≡ false) hs
      ⊎ ((own : CapacityHold) × (own.source_signature ≡ source)
          × (is_feasible cap own ≡ true)
          × All (NotBefore cap own) hs)
first_served source cap hs w = elim (Option-cases (oldest_hold cap hs)) [
  | inl n ↦ inl (subst (Oldest cap hs) n (oldest_hold-Oldest cap hs))
  | inr (own, e) ↦
      let (f, all) = subst (Oldest cap hs) e (oldest_hold-Oldest cap hs) in
      let same : (own.source_signature == source) ≡ true =
        ground (arith, subst (λ o. waits_at source o ≡ false) e w) in
      inr (own, (str_eq_iff own.source_signature source).0 same, f, all)
]
