-- ===== src/Witness/Follow.antt =====
-- The relation between a head and the head that later stands in its place.
use swap_service.Base.{
  ℕ, ◌≤◌, ◌<◌, String, ◌≡◌, refl, sym, ◌∙◌, subst, true, false, ◌⊎◌, inl, inr, Option, none, some,
  List, [], ◌∷◌, arith, ◌==◌, string_eq, str_eq, str_eq_iff, ℕ_eq, option_eq, Bool-cases,
}
use mathlib.Core.Option
use swap_service.Witness.{
  Status, ready, claimed, running, held, Head, Store, same_status, find_head, update_head,
}

abbrev pub rank : Status → ℕ
rank ready = 0
rank claimed = 1
rank running = 2
rank held = 3

abbrev pub Follows : Head → Head → Type 0
Follows h k =
    (k ≡ h)
    ⊎ ((same_status h.status held ≡ false)
        × ((h.generation < k.generation)
            ⊎ ((k.generation ≡ h.generation)
                × (k.permit_nonce ≡ h.permit_nonce)
                × (rank h.status ≤ rank k.status)
                × ((h.status ≡ ready) ⊎ (k.claim_nonce ≡ h.claim_nonce)))))

pub Follows-trans : {h k l : Head} → Follows h k → Follows k l → Follows h l
Follows-trans {h} {k} {l} (inl e) b = subst (λ z. Follows z l) e b
Follows-trans {h} {k} {l} (inr a) (inl e) = subst (λ z. Follows h z) (sym e) (inr a)
Follows-trans {h} {k} {l} (inr (n, inl lt)) (inr (m, inl lt')) = inr (n, inl (omega arith))
Follows-trans {h} {k} {l} (inr (n, inl lt)) (inr (m, inr (g, _, _, _))) =
    inr (n, inl (ground (arith, lt, g)))
Follows-trans {h} {k} {l} (inr (n, inr (g, _, _, _))) (inr (m, inl lt)) =
    inr (n, inl (ground (arith, lt, g)))
Follows-trans {h} {k} {l} (inr (n, inr (g, p, r, c))) (inr (m, inr (g', p', r', c'))) =
    inr (n, inr (g' ∙ g, p' ∙ p, omega arith, nonce c c'))
  where
    only_ready : (s : Status) → rank s ≤ 0 → s ≡ ready
    only_ready s e = ground (arith, e)

    nonce :
        (h.status ≡ ready) ⊎ (k.claim_nonce ≡ h.claim_nonce)
        → (k.status ≡ ready) ⊎ (l.claim_nonce ≡ k.claim_nonce)
        → (h.status ≡ ready) ⊎ (l.claim_nonce ≡ h.claim_nonce)
    nonce (inl e) _ = inl e
    nonce (inr e) (inr e') = inr (e' ∙ e)
    nonce (inr e) (inl z) = inl (only_ready h.status (subst (λ x. rank h.status ≤ rank x) z r))

-- A head that is found stays found, and follows.
abbrev pub KeepsHead : Option Head → Option Head → Type 0
KeepsHead none _ = Unit
KeepsHead (some h) none = ⊥
KeepsHead (some h) (some k) = Follows h k

pub KeepsHead-refl : (o : Option Head) → KeepsHead o o
KeepsHead-refl none = tt
KeepsHead-refl (some h) = inl refl

pub KeepsHead-trans : (o p q : Option Head) → KeepsHead o p → KeepsHead p q → KeepsHead o q
KeepsHead-trans none p q a b = tt
KeepsHead-trans (some i) none q a b = absurd a
KeepsHead-trans (some i) (some j) none a b = absurd b
KeepsHead-trans (some i) (some j) (some k) a b = Follows-trans {h = i} {k = j} {l = k} a b

-- Every head of one store is kept in the next.
unfoldable pub Keeps : Store → Store → Type 0
Keeps w w' = (p : String) → KeepsHead (find_head p w.heads) (find_head p w'.heads)

pub Keeps-refl : (w w' : Store) → w'.heads ≡ w.heads → Keeps w w'
unfolding Keeps
Keeps-refl w w' e p = rw e (KeepsHead-refl _)

pub Keeps-trans : (a b c : Store) → Keeps a b → Keeps b c → Keeps a c
unfolding Keeps
Keeps-trans a b c h k p = KeepsHead-trans _ _ _ (h p) (k p)

-- The UPDATE of one head.
module _ (d : String) (f : Head → Head)
    (keeps_id : (h : Head) → (f h).deployment_id ≡ h.deployment_id) where
  pub find-update_head :
      (hs : List Head) → find_head d (update_head d f hs) ≡ Option.map f (find_head d hs)
  find-update_head [] = refl
  find-update_head (h ∷ hs) = elim (Bool-cases (h.deployment_id == d)) [
    | inl e ↦ simp (e, keeps_id h)
    | inr e ↦ simp (e, find-update_head hs)
  ]

  find-update_head-other :
      (p : String) (hs : List Head)
      → str_eq p d ≡ false
      → find_head p (update_head d f hs) ≡ find_head p hs
  find-update_head-other p [] n = refl
  find-update_head-other p (h ∷ hs) n = elim (Bool-cases (h.deployment_id == d)) [
    | inl e ↦ simp (e, keeps_id h, differs h.deployment_id e, find-update_head-other p hs n)
    | inr e ↦ simp (e, find-update_head-other p hs n)
  ]
    where
      differs : (q : String) → str_eq q d ≡ true → str_eq q p ≡ false
      differs q e = ground (arith, str_eq_iff q d, str_eq_iff q p, str_eq_iff p d)

  pub update_head-Keeps :
      (p : String) (hs : List Head) (h : Head)
      → find_head d hs ≡ some h
      → Follows h (f h)
      → KeepsHead (find_head p hs) (find_head p (update_head d f hs))
  update_head-Keeps p hs h found follows = elim (Bool-cases (str_eq p d)) [
    | inl e ↦ rw ((str_eq_iff p d).0 e, find-update_head hs) (rw found follows)
    | inr n ↦ rw (find-update_head-other p hs n) (KeepsHead-refl _)
  ]
