-- ===== src/Transfer/Advance.antt =====
-- The changes that the operations make to a row of nexus_transfer_intents.
use swap_service.Base.{
  ℕ, ℤ, pos, String, ◌≡◌, refl, ap, ◌∙◌, Bool, true, false, not, ◌&&◌, ◌||◌, Option, none, some,
  List, [], ◌∷◌, arith, ◌==◌, string_eq, str_eq, str_eq_iff, int_eq, int_beq_iff, inl, inr, ltb_ℤ,
  strip-strip, ◌⊎◌, Bool-cases, if◌then◌else◌, is_empty, strip,
}
use swap_service.Database.{
  IntentStatus, prepared, authorized, executing, outcome_unknown, legacy_manual_hold,
  TransferIntent,
}
use swap_service.Credit.{minus_one}
use swap_service.Transfer.{
  text_or_empty, get_intent, same_status, may_advance, recover_rows, recover_row, claim_row,
  authorize_row, hold_legacy_row, is_interrupted, advance_row, nonempty, coalesce, agrees,
}
use swap_service.Transfer.Status.{
  leads_to, may_advance-leads_to, remote, Evolves, Evolves-refl, Evolves-trans, Advances,
}

-- An intent that is only given a later status.
set_status-Evolves :
    (i : TransferIntent) (s : IntentStatus)
    → leads_to i.status s ≡ true
    → Evolves i (record i { status = s })
set_status-Evolves i s h = record {
  same_id = refl;
  same_request = refl;
  same_reference = refl;
  forward = h;
  same_remote = inr refl;
  contract_kept = inr refl;
}

pub authorize_row-Evolves :
    (i : TransferIntent) → same_status i.status prepared ≡ true → Evolves i (authorize_row i)
authorize_row-Evolves i h = set_status-Evolves i authorized (go i.status h)
  where
    go : (s : IntentStatus) → same_status s prepared ≡ true → leads_to s authorized ≡ true
    go s e = ground arith

authorized_leads :
    (s : IntentStatus) → same_status s authorized ≡ true → leads_to s executing ≡ true
authorized_leads s e = ground arith

executing_leads :
    (s : IntentStatus) → same_status s executing ≡ true → leads_to s outcome_unknown ≡ true
executing_leads s e = ground arith

held_leads : (s : IntentStatus) → leads_to s legacy_manual_hold ≡ true
held_leads prepared = refl
held_leads _ = refl

pub and_left : (a b : Bool) → (a && b) ≡ true → a ≡ true
and_left a b h = ground arith

pub claim_row-Evolves : (now : ℕ) (i : TransferIntent) → Evolves i (claim_row now i)
claim_row-Evolves now i =
    elim (Bool-cases
      (same_status i.status authorized && not (ltb_ℤ i.request.source_contract_id (pos 0)))) [
        | inl h ↦ rw h (record {
          same_id = refl;
          same_request = refl;
          same_reference = refl;
          forward = authorized_leads i.status (and_left _ _ h);
          same_remote = inr refl;
          contract_kept = inr refl;
        })
        | inr h ↦ rw h (Evolves-refl i)
      ]

hold_legacy_row-Evolves : (i : TransferIntent) → Evolves i (hold_legacy_row i)
hold_legacy_row-Evolves i = elim (Bool-cases (i.request.source_contract_id == minus_one)) [
  | inl h ↦ rw h (set_status-Evolves i legacy_manual_hold (held_leads i.status))
  | inr h ↦ rw h (Evolves-refl i)
]

interrupt-Evolves :
    (i : TransferIntent)
    → Evolves i (if is_interrupted i then record i { status = outcome_unknown } else i)
interrupt-Evolves i = elim (Bool-cases (is_interrupted i)) [
  | inl h ↦ rw h (set_status-Evolves i outcome_unknown (executing_leads i.status (and_left _ _ h)))
  | inr h ↦ rw h (Evolves-refl i)
]

pub recover_row-Evolves : (i : TransferIntent) → Evolves i (recover_row i)
recover_row-Evolves i =
    Evolves-trans (hold_legacy_row-Evolves i) (interrupt-Evolves (hold_legacy_row i))

cons-Advances :
    (p : String) (i j : TransferIntent) (is js : List TransferIntent)
    → Evolves i j
    → Advances (get_intent p is) (get_intent p js)
    → Advances (get_intent p (i ∷ is)) (get_intent p (j ∷ js))
cons-Advances p i j is js e h = elim (Bool-cases (i.id == p)) [
  | inl k ↦ rw (k, ap (λ z. str_eq z p) e.same_id ∙ k) e
  | inr k ↦ rw (k, ap (λ z. str_eq z p) e.same_id ∙ k) h
]

pub recover_rows-Advances :
    (p : String) (is : List TransferIntent)
    → Advances (get_intent p is) (get_intent p (recover_rows is))
unfolding recover_rows
recover_rows-Advances p [] = tt
recover_rows-Advances p (i ∷ is) =
    cons-Advances p i (recover_row i) is _ (recover_row-Evolves i) (recover_rows-Advances p is)

-- What the checks of `update_in_transaction` say of the row.
same_remote_after :
    (supplied : String) (old : Option String)
    → (is_empty (strip (text_or_empty old))
        || is_empty supplied
        || (supplied == strip (text_or_empty old)))
      ≡ true
    → (is_empty (strip (text_or_empty old)) ≡ true)
      ⊎ (strip (text_or_empty (coalesce (nonempty supplied) old)) ≡ strip (text_or_empty old))
same_remote_after supplied old h = elim (Bool-cases (is_empty (strip (text_or_empty old)))) [
  | inl z ↦ inl z
  | inr n ↦ elim (Bool-cases (is_empty supplied)) [
    | inl e ↦ inr (rw e refl)
    | inr e ↦ inr (
        rw e (ap strip ((str_eq_iff supplied _).0 (equal n e h)) ∙ strip-strip (text_or_empty old)))
  ]
]
  where
    equal : {a b c : Bool} → a ≡ false → b ≡ false → (a || b || c) ≡ true → c ≡ true
    equal {a} {b} {c} x y z = ground arith

contract_after :
    (c : Option ℤ) (old : Option ℤ) → agrees c old ≡ true → (old ≡ none) ⊎ (coalesce c old ≡ old)
contract_after none old h = inr refl
contract_after (some a) none h = inl refl
contract_after (some a) (some b) h = inr (ap some ((int_beq_iff a b).0 h))

pub advance_row-Evolves :
    (s : IntentStatus) (supplied : String) (c : Option ℤ) (resolved : Bool) (now : ℕ)
    (i : TransferIntent)
    → may_advance i.status s ≡ true
    → (is_empty (remote i) || is_empty supplied || (supplied == remote i)) ≡ true
    → agrees c i.contract_id ≡ true
    → Evolves i (advance_row s (nonempty supplied) c resolved now i)
advance_row-Evolves s supplied c resolved now i h k a = record {
  same_id = refl;
  same_request = refl;
  same_reference = refl;
  forward = may_advance-leads_to i.status s h;
  same_remote = same_remote_after supplied i.remote_txid k;
  contract_kept = contract_after c i.contract_id a;
}
