-- ===== src/Witness/Moves.antt =====
-- The relation `Keeps` of `Witness.Follow` for each operation of the witness.
use swap_service.Base.{
  ℕ, ◌+◌, ◌≤◌, String, ◌≡◌, refl, sym, ap, ◌∙◌, subst, true, false, not, ◌&&◌, inl, inr, Option,
  none, some, List, ◌∷◌, arith, ◌==◌, string_eq, str_eq_iff, nat_eq_iff, ℕ_eq, option_eq,
  Bool-cases, is_some, is_empty, strip, leb, text_length, ok, err, witness_error, Value, require,
  require-eq-ok, Ensures, >>=-Ensures, Ensures-ok, runtime_error,
}
use swap_service.Witness.{
  Certificate, Mapping, from_dict, issue, claim_permit, complete_claim, seal_image, hold_claim,
  is_hex, Status, ready, claimed, running, held, Head, Store, Action, same_status, find_head,
  update_head, authorized, require_generation, find_or_fail, append_event, advance, issue_initial,
  claim, complete, seal, hold, claimed_head, running_head, sealed_head, held_head,
}
use swap_service.Witness.Follow.{
  rank, Follows, KeepsHead, KeepsHead-refl, Keeps, Keeps-refl, update_head-Keeps,
}

unfoldable pub Grown : Store → Head × Store → Type 0
Grown w x = Keeps w x.1

-- The operations.
module _ (hash : String → String → Action → ℕ → String) where
  from_option :
      (P : Head × Store → Type 0) (o : Option Head) (w : Store)
      → ((h : Head) → P (h, w))
      → Ensures P (elim o [ none ↦ err runtime_error | some h ↦ ok (h, w) ])
  from_option P none w k = tt
  from_option P (some h) w k = k h

  pub append_event-heads :
      (d : String) (a : Action) (now : ℕ) (w : Store)
      → Ensures (λ x. x.1.heads ≡ w.heads) (append_event hash d a now w)
  unfolding append_event
  append_event-heads d a now w = ground arith

  advance-Keeps :
      (d : String) (a : Action) (f : String → Head → Head) (now : ℕ) (w : Store) (h : Head)
      → ((s : String) (k : Head) → (f s k).deployment_id ≡ k.deployment_id)
      → find_head d w.heads ≡ some h
      → ((s : String) → Follows h (f s h))
      → Ensures (Grown w) (advance hash d a f now w)
  unfolding Grown Keeps
  advance-Keeps d a f now w h keeps_id found follows =
      >>=-Ensures (Grown w) (append_event hash d a now w) _ λ (s, w') e.
        let same = Ensures-ok (λ x. x.1.heads ≡ w.heads) _ (append_event-heads d a now w) e in
        from_option (Grown w) _ _ λ k p.
          subst (λ hs. KeepsHead (find_head p w.heads) (find_head p (update_head d (f s) hs)))
            (sym same) (update_head-Keeps d (f s) (keeps_id s) p w.heads h found (follows s))

  same_Grown : (w : Store) (h : Head) → Grown w (h, w)
  unfolding Grown
  same_Grown w h = Keeps-refl w w refl

  pub find_or_fail-eq-ok :
      (d : String) (w : Store) {h : Head} → find_or_fail d w ≡ ok h → find_head d w.heads ≡ some h
  find_or_fail-eq-ok d w h = ground (arith, h)

  pub claim-Grown :
      (d : String) (generation : Value) (permit nonce token : String) (now : ℕ) (w : Store)
      → Ensures (Grown w) (claim hash d generation permit nonce token now w)
  unfolding claim
  claim-Grown d generation permit nonce token now w =
      >>=-Ensures (Grown w) (require (authorized token (some w.runtime_token)) witness_error) _
        λ _ _. >>=-Ensures (Grown w) (require (is_hex nonce) witness_error) _ λ _ _.
          >>=-Ensures (Grown w) (require_generation generation) _ λ g _.
            >>=-Ensures (Grown w) (require (is_hex permit) witness_error) _ λ _ _.
              >>=-Ensures (Grown w) (find_or_fail d w) _ λ h found.
                elim (Bool-cases (same_status h.status ready)) [
                  | inl r ↦ ground (
                    arith,
                    r,
                    same_Grown w h,
                    advance-Keeps d (claim_permit g nonce permit) (claimed_head nonce) now w h
                        (λ _ _. refl) (find_or_fail-eq-ok d w found)
                        (λ s. claimed-Follows nonce s h r),
                  )
                  | inr r ↦ ground (arith, r, same_Grown w h)
                ]
    where
      claimed-Follows :
          (nonce s : String) (h : Head)
          → same_status h.status ready ≡ true
          → Follows h (claimed_head nonce s h)
      claimed-Follows nonce s h r = ground (arith, r)

  pub complete-Grown :
      (d : String) (generation : Value) (nonce token : String) (now : ℕ) (w : Store)
      → Ensures (Grown w) (complete hash d generation nonce token now w)
  unfolding complete
  complete-Grown d generation nonce token now w =
      >>=-Ensures (Grown w) (require (authorized token (some w.runtime_token)) witness_error) _
        λ _ _. >>=-Ensures (Grown w) (require (is_hex nonce) witness_error) _ λ _ _.
          >>=-Ensures (Grown w) (require_generation generation) _ λ g _.
            >>=-Ensures (Grown w) (find_or_fail d w) _ λ h found.
              elim (Bool-cases (same_status h.status claimed)) [
                | inl r ↦ ground (
                  arith,
                  r,
                  same_Grown w h,
                  advance-Keeps d (complete_claim g nonce) running_head now w h (λ _ _. refl)
                      (find_or_fail-eq-ok d w found) (λ s. running-Follows s h r),
                )
                | inr r ↦ ground (arith, r, same_Grown w h)
              ]
    where
      running-Follows :
          (s : String) (h : Head)
          → same_status h.status claimed ≡ true
          → Follows h (running_head s h)
      running-Follows s h r = ground (arith, r)

  pub seal-Grown :
      (d : String) (generation : Value) (nonce : String) (next : Mapping) (token : String) (now : ℕ)
      (w : Store)
      → Ensures (Grown w) (seal hash d generation nonce next token now w)
  unfolding seal
  seal-Grown d generation nonce next token now w =
      >>=-Ensures (Grown w) (require (authorized token (some w.runtime_token)) witness_error) _
        λ _ _. >>=-Ensures (Grown w) (require (is_hex nonce) witness_error) _ λ _ _.
          >>=-Ensures (Grown w) (require_generation generation) _ λ g _.
            >>=-Ensures (Grown w) (from_dict next) _ λ cert _.
              >>=-Ensures (Grown w)
                (require ((cert.deployment_id == d) && (cert.generation == g + 1)) witness_error) _
                λ _ next_is. >>=-Ensures (Grown w) (find_or_fail d w) _ λ h found.
                  elim (Bool-cases (same_status h.status running && (h.generation == g))) [
                    | inl r ↦ ground (
                      arith,
                      same_Grown w h,
                      advance-Keeps d
                          (seal_image g cert.generation nonce cert.permit_nonce cert.image_sha256)
                          (sealed_head cert) now w h (λ _ _. refl) (find_or_fail-eq-ok d w found)
                          (λ s. sealed-Follows cert d g s h r (require-eq-ok _ _ next_is)),
                    )
                    | inr r ↦ ground (arith, r)
                  ]
    where
      sealed-Follows :
          (cert : Certificate) (d : String) (g : ℕ) (s : String) (h : Head)
          → (same_status h.status running && (h.generation == g)) ≡ true
          → ((cert.deployment_id == d) && (cert.generation == g + 1)) ≡ true
          → Follows h (sealed_head cert s h)
      sealed-Follows cert d g s h r n = inr (
        ground (arith, r),
        inl (ground (arith, r, n, nat_eq_iff h.generation g, nat_eq_iff cert.generation (g + 1))),
      )

  pub hold-Grown :
      (d : String) (generation : Value) (nonce reason token : String) (now : ℕ) (w : Store)
      → Ensures (Grown w) (hold hash d generation nonce reason token now w)
  unfolding hold
  hold-Grown d generation nonce reason token now w =
      >>=-Ensures (Grown w) (require (authorized token (some w.runtime_token)) witness_error) _
        λ _ _. >>=-Ensures (Grown w) (require (is_hex nonce) witness_error) _ λ _ _.
          >>=-Ensures (Grown w) (require_generation generation) _ λ g _.
            >>=-Ensures (Grown w)
              (require
                (not (is_empty (strip reason))
                  && leb (text_length reason) 500
                  && (reason == strip reason))
                witness_error)
              _
              λ _ _. >>=-Ensures (Grown w) (find_or_fail d w) _ λ h found.
                elim (Bool-cases (same_status h.status held)) [
                  | inl r ↦ ground (arith, r, same_Grown w h)
                  | inr r ↦ ground (
                    arith,
                    r,
                    advance-Keeps d (hold_claim g nonce reason) (held_head reason) now w h
                        (λ _ _. refl) (find_or_fail-eq-ok d w found)
                        (λ s. held-Follows reason s h r),
                  )
                ]
    where
      held-Follows :
          (reason s : String) (h : Head)
          → same_status h.status held ≡ false
          → Follows h (held_head reason s h)
      held-Follows reason s h r = inr (r, inr (refl, refl, below h.status, inr refl))
        where
          below : (x : Status) → rank x ≤ 3
          below x = ground arith

  pub issue_initial-Grown :
      (m : Mapping) (actor rationale token : String) (now : ℕ) (w : Store)
      → Ensures (Grown w) (issue_initial hash m actor rationale token now w)
  unfolding issue_initial Grown Keeps
  issue_initial-Grown m actor rationale token now w =
      >>=-Ensures (Grown w) (require (authorized token w.admin_token) witness_error) _ λ _ _.
        >>=-Ensures (Grown w) (from_dict m) _ λ cert _.
          >>=-Ensures (Grown w)
            (require
              (not (is_empty (strip actor))
                && leb (text_length actor) 128
                && not (is_empty (strip rationale))
                && leb (text_length rationale) 1000)
              witness_error)
            _
            λ _ _.
              >>=-Ensures (Grown w)
                (require (not (is_some (find_head cert.deployment_id w.heads))) witness_error) _
                λ _ fresh.
                  >>=-Ensures (Grown w)
                    (append_event hash cert.deployment_id
                      (issue (strip actor) (strip rationale) cert.generation cert.permit_nonce) now
                      w)
                    _
                    λ (s, w') e.
                      issued-Keeps w w' _
                        (Ensures-ok (λ x. x.1.heads ≡ w.heads) _
                          (append_event-heads cert.deployment_id
                            (issue (strip actor) (strip rationale) cert.generation
                              cert.permit_nonce)
                            now w)
                          e)
                        (require-eq-ok _ _ fresh)
    where
      insert-Keeps :
          (p : String) (h : Head) (hs : List Head)
          → not (is_some (find_head h.deployment_id hs)) ≡ true
          → KeepsHead (find_head p hs) (find_head p (h ∷ hs))
      insert-Keeps p h hs n = elim (Bool-cases (h.deployment_id == p)) [
        | inl k ↦ rw k (
            gone (find_head p hs) (
              ap (λ z. not (is_some (find_head z hs))) (sym ((str_eq_iff h.deployment_id p).0 k))
              ∙ n))
        | inr k ↦ rw k (KeepsHead-refl _)
      ]
        where
          gone : (o : Option Head) → not (is_some o) ≡ true → KeepsHead o (some h)
          gone none e = tt
          gone (some j) e = cc

      issued-Keeps :
          (w w' : Store) (h : Head)
          → w'.heads ≡ w.heads
          → not (is_some (find_head h.deployment_id w.heads)) ≡ true
          → Keeps w (record w' { heads = h ∷ w'.heads })
      issued-Keeps w w' h same n p =
          subst (λ hs. KeepsHead (find_head p w.heads) (find_head p (h ∷ hs))) (sym same)
            (insert-Keeps p h w.heads n)
