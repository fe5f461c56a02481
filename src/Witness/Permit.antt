-- ===== src/Witness/Permit.antt =====
-- Histories of requests to the witness, and its permits and held heads under them.
use swap_service.Base.{
  ℕ, pos, String, ◌≡◌, refl, sym, ap, ◌∙◌, subst, true, not, ◌&&◌, ◌||◌, ◌⊎◌, inl, inr, Option,
  none, some, List, [], ◌∷◌, arith, ◌==◌, string_eq, str_eq_iff, nat_eq_iff, ℕ_eq, option_eq,
  option_beq_iff, Bool-cases, if◌then◌else◌, Result, ok, err, witness_error, Value, int, >>=-eq-ok,
  require, Ensures, Ensures-ok,
}
use mathlib.Core.Option
use swap_service.Witness.{
  Mapping, is_hex, ready, claimed, held, Head, Store, Action, same_status, find_head, update_head,
  authorized, find_or_fail, append_event, advance, issue_initial, claim, complete, seal, hold,
  claimed_head, claim_permit,
}
use swap_service.Witness.Follow.{
  Follows, KeepsHead, Keeps, Keeps-refl, Keeps-trans, find-update_head,
}
use swap_service.Witness.Moves.{
  Grown, claim-Grown, complete-Grown, seal-Grown, hold-Grown, issue_initial-Grown,
  find_or_fail-eq-ok, append_event-heads,
}

-- The requests.
pub data Request : Type 0 where
  issues : Mapping → String → String → String → Request
  claims : String → Value → String → String → String → Request
  completes : String → Value → String → String → Request
  seals : String → Value → String → Mapping → String → Request
  holds : String → Value → String → String → String → Request

-- A refused request rolls back.
abbrev pub kept : Store → Result (Head × Store) → Store
kept w (ok (h, w')) = w'
kept w (err e) = w

module _ (hash : String → String → Action → ℕ → String) where
  unfoldable pub serve : Request → ℕ → Store → Store
  serve (issues m actor rationale token) now w =
      kept w (issue_initial hash m actor rationale token now w)
  serve (claims d g permit nonce token) now w = kept w (claim hash d g permit nonce token now w)
  serve (completes d g nonce token) now w = kept w (complete hash d g nonce token now w)
  serve (seals d g nonce next token) now w = kept w (seal hash d g nonce next token now w)
  serve (holds d g nonce reason token) now w = kept w (hold hash d g nonce reason token now w)

  unfoldable pub run : List (ℕ × Request) → Store → Store
  run [] w = w
  run ((now, r) ∷ rs) w = run rs (serve r now w)

  kept-Keeps : (w : Store) (r : Result (Head × Store)) → Ensures (Grown w) r → Keeps w (kept w r)
  unfolding Grown
  kept-Keeps w (ok (h, w')) k = k
  kept-Keeps w (err e) k = Keeps-refl w w refl

  serve-Keeps : (r : Request) (now : ℕ) (w : Store) → Keeps w (serve r now w)
  unfolding serve
  serve-Keeps (issues m a x t) now w = kept-Keeps w _ (issue_initial-Grown hash m a x t now w)
  serve-Keeps (claims d g p n t) now w = kept-Keeps w _ (claim-Grown hash d g p n t now w)
  serve-Keeps (completes d g n t) now w = kept-Keeps w _ (complete-Grown hash d g n t now w)
  serve-Keeps (seals d g n c t) now w = kept-Keeps w _ (seal-Grown hash d g n c t now w)
  serve-Keeps (holds d g n x t) now w = kept-Keeps w _ (hold-Grown hash d g n x t now w)

  -- Over any history of requests every head is kept.
  pub run-Keeps : (rs : List (ℕ × Request)) (w : Store) → Keeps w (run rs w)
  unfolding run
  run-Keeps [] w = Keeps-refl w w refl
  run-Keeps ((now, r) ∷ rs) w = Keeps-trans w _ _ (serve-Keeps r now w) (run-Keeps rs _)

  advance-eq-ok :
      (d : String) (a : Action) (f : String → Head → Head) (now : ℕ) (w w' : Store) (h r : Head)
      → ((s : String) (k : Head) → (f s k).deployment_id ≡ k.deployment_id)
      → find_head d w.heads ≡ some h
      → advance hash d a f now w ≡ ok (r, w')
      → (s : String) × (r ≡ f s h) × (find_head d w'.heads ≡ some r)
  advance-eq-ok d a f now w w' h r keeps_id found e =
      let ((s, base), e₁, e₂) = >>=-eq-ok (append_event hash d a now w) _ e in
      let same = Ensures-ok (λ x. x.1.heads ≡ w.heads) _ (append_event-heads hash d a now w) e₁ in
      let stored : find_head d (update_head d (f s) base.heads) ≡ some (f s h) =
        find-update_head d (f s) (keeps_id s) base.heads
        ∙ ap (λ hs. Option.map (f s) (find_head d hs)) same
        ∙ ap (Option.map (f s)) found in
      (s, ground (arith, e₂, stored), ground (arith, e₂, stored))

  claimed_now :
      (nonce s : String) (g : ℕ) (h r : Head)
      → r ≡ claimed_head nonce s h
      → h.generation ≡ g
      → (r.generation ≡ g) × (r.status ≡ claimed) × (r.claim_nonce ≡ some nonce)
  claimed_now nonce s g h r e k =
      (ap (λ z. z.generation) e ∙ k, ap (λ z. z.status) e, ap (λ z. z.claim_nonce) e)

  replayed :
      (h : Head) (g : ℕ) (permit nonce : String)
      → (same_status h.status claimed
          && (h.generation == g)
          && (h.permit_nonce == permit)
          && (h.claim_nonce == some nonce))
        ≡ true
      → (h.status ≡ claimed)
        × (h.generation ≡ g)
        × (h.permit_nonce ≡ permit)
        × (h.claim_nonce ≡ some nonce)
  replayed h g permit nonce y = ground (
    arith,
    y,
    nat_eq_iff h.generation g,
    str_eq_iff h.permit_nonce permit,
    option_beq_iff h.claim_nonce (some nonce),
  )

  opened :
      (h : Head) (g : ℕ) (permit : String)
      → (same_status h.status ready && (h.generation == g) && (h.permit_nonce == permit)) ≡ true
      → (h.status ≡ ready) × (h.generation ≡ g) × (h.permit_nonce ≡ permit)
  opened h g permit y =
      ground (arith, y, nat_eq_iff h.generation g, str_eq_iff h.permit_nonce permit)

  -- What a claim that returns has found and leaves.
  abbrev Granted : String → ℕ → String → String → Store → Store → Head → Type 0
  Granted d g permit nonce w w' r =
      (h : Head) × (find_head d w.heads ≡ some h)
      × (h.generation ≡ g)
      × ((h.status ≡ ready) ⊎ ((h.status ≡ claimed) × (h.claim_nonce ≡ some nonce)))
      × (find_head d w'.heads ≡ some r)
      × ((r.generation ≡ g) × (r.status ≡ claimed) × (r.claim_nonce ≡ some nonce))

  replay-Granted :
      (d : String) (g : ℕ) (permit nonce : String) (w : Store) (h : Head)
      → find_head d w.heads ≡ some h
      → (same_status h.status claimed
          && (h.generation == g)
          && (h.permit_nonce == permit)
          && (h.claim_nonce == some nonce))
        ≡ true
      → Granted d g permit nonce w w h
  replay-Granted d g permit nonce w h at y =
      let (status, generation, _, mine) = replayed h g permit nonce y in
      (h, at, generation, inr (status, mine), at, (generation, status, mine))

  open-Granted :
      (d : String) (g : ℕ) (permit nonce : String) (now : ℕ) (w w' : Store) (h r : Head)
      → find_head d w.heads ≡ some h
      → (same_status h.status ready && (h.generation == g) && (h.permit_nonce == permit)) ≡ true
      → advance hash d (claim_permit g nonce permit) (claimed_head nonce) now w ≡ ok (r, w')
      → Granted d g permit nonce w w' r
  open-Granted d g permit nonce now w w' h r at y moved =
      let (status, generation, _) = opened h g permit y in
      let (s, is_claimed, stored) =
        advance-eq-ok d (claim_permit g nonce permit) (claimed_head nonce) now w w' h r
          (λ _ _. refl) at moved in
      (h, at, generation, inl status, stored, claimed_now nonce s g h r is_claimed generation)

  claimed_from :
      (d : String) (g : ℕ) (permit nonce : String) (now : ℕ) (w w' : Store) (h r : Head)
      → find_head d w.heads ≡ some h
      → if◌then◌else◌ {A = Result (Head × Store)}
          (same_status h.status claimed
            && (h.generation == g)
            && (h.permit_nonce == permit)
            && (h.claim_nonce == some nonce))
          (ok (h, w))
          (if not (same_status h.status ready)
              || not (h.generation == g)
              || not (h.permit_nonce == permit)
            then err witness_error
            else advance hash d (claim_permit g nonce permit) (claimed_head nonce) now w)
        ≡ ok (r, w')
      → Granted d g permit nonce w w' r
  claimed_from d g permit nonce now w w' h r at e =
      elim (Bool-cases (
        same_status h.status claimed
        && (h.generation == g)
        && (h.permit_nonce == permit)
        && (h.claim_nonce == some nonce))) [
          | inl y ↦
              let same : h ≡ r = ground (arith, e, y) in
              let kept_store : w ≡ w' = ground (arith, e, y) in
              subst (λ z. Granted d g permit nonce w z r) kept_store
                (subst (Granted d g permit nonce w w) same
                  (replay-Granted d g permit nonce w h at y))
          | inr n ↦
              open-Granted d g permit nonce now w w' h r at (ground (arith, e, n))
                (ground (arith, e, n))
        ]

  claim_granted_lem :
      (d : String) (g : ℕ) (permit nonce token : String) (now : ℕ) (w w' : Store) (r : Head)
      → claim hash d (int (pos g)) permit nonce token now w ≡ ok (r, w')
      → Granted d g permit nonce w w' r
  unfolding claim
  claim_granted_lem d g permit nonce token now w w' r e =
      let (u₁, p₁, e₁) =
        >>=-eq-ok (require (authorized token (some w.runtime_token)) witness_error) _ e in
      let (u₂, p₂, e₂) = >>=-eq-ok (require (is_hex nonce) witness_error) _ e₁ in
      let (u₃, p₃, e₃) = >>=-eq-ok (require (is_hex permit) witness_error) _ e₂ in
      let (h, found, e₄) = >>=-eq-ok (find_or_fail d w) _ e₃ in
      claimed_from d g permit nonce now w w' h r (find_or_fail-eq-ok hash d w found) e₄

  -- A permit is consumed once: after a claim of a generation is granted to one nonce, no later history
  -- of requests lets another nonce claim that generation, by whatever permit.
  pub permit_once :
      (d : String) (g : ℕ) (permit permit' nonce nonce' token token' : String) (now later : ℕ)
      (w w₁ w₂ : Store) (r r' : Head) (rs : List (ℕ × Request))
      → claim hash d (int (pos g)) permit nonce token now w ≡ ok (r, w₁)
      → claim hash d (int (pos g)) permit' nonce' token' later (run rs w₁) ≡ ok (r', w₂)
      → nonce' ≡ nonce
  unfolding Keeps
  permit_once d g permit permit' nonce nonce' token token' now later w w₁ w₂ r r' rs first second =
      let (_, _, _, _, stored, (generation, status, mine)) =
        claim_granted_lem d g permit nonce token now w w₁ r first in
      let (k, found, same_generation, open_or_mine, _, _) =
        claim_granted_lem d g permit' nonce' token' later (run rs w₁) w₂ r' second in
      ours r k
        (subst (λ z. KeepsHead z (some k)) stored
          (subst (λ z. KeepsHead (find_head d w₁.heads) z) found (run-Keeps rs w₁ d)))
        status (same_generation ∙ sym generation) mine open_or_mine
    where
      ours :
          (r k : Head)
          → Follows r k
          → r.status ≡ claimed
          → k.generation ≡ r.generation
          → r.claim_nonce ≡ some nonce
          → (k.status ≡ ready) ⊎ ((k.status ≡ claimed) × (k.claim_nonce ≡ some nonce'))
          → nonce' ≡ nonce
      ours r k f s g m (inl o) = ground (arith, f, s, g, o)
      ours r k f s g m (inr (o, n)) = ground (arith, f, s, g, o, m, n)

  -- A held head stays as it is over any history of requests.
  pub held_forever :
      (d : String) (w : Store) (h : Head) (rs : List (ℕ × Request))
      → find_head d w.heads ≡ some h
      → h.status ≡ held
      → find_head d (run rs w).heads ≡ some h
  unfolding Keeps
  held_forever d w h rs found status =
      stays (find_head d (run rs w).heads)
        (subst (λ z. KeepsHead z (find_head d (run rs w).heads)) found (run-Keeps rs w d))
    where
      stays : (o : Option Head) → KeepsHead (some h) o → o ≡ some h
      stays none k = absurd k
      stays (some k) (inl e) = ap some e
      stays (some k) (inr (n, _)) = ground (arith, n, status)
