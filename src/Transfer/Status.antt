-- ===== src/Transfer/Status.antt =====
-- The relation between a row of nexus_transfer_intents and the row that later stands in its place.
use swap_service.Base.{
  String, ◌≡◌, refl, ◌∙◌, subst, ◌⊎◌, inl, inr, Bool, true, false, Option, none, some, List, [],
  ◌∷◌, arith, ◌==◌, string_eq, str_eq, str_eq_iff, Bool-cases, strip, is_empty,
}
use mathlib.Core.Option
use swap_service.Database.{
  IntentStatus, prepared, authorized, executing, submitted, outcome_unknown, completed,
  legacy_manual_hold, TransferIntent,
}
use swap_service.Transfer.{text_or_empty, get_intent, update_intent, may_advance}

-- The statuses that one status leads to, at once or later.
abbrev pub leads_to : IntentStatus → IntentStatus → Bool
leads_to prepared _ = true
leads_to authorized prepared = false
leads_to authorized _ = true
leads_to executing prepared = false
leads_to executing authorized = false
leads_to executing _ = true
leads_to submitted submitted = true
leads_to submitted completed = true
leads_to submitted legacy_manual_hold = true
leads_to submitted _ = false
leads_to outcome_unknown outcome_unknown = true
leads_to outcome_unknown completed = true
leads_to outcome_unknown legacy_manual_hold = true
leads_to outcome_unknown _ = false
leads_to completed completed = true
leads_to completed legacy_manual_hold = true
leads_to completed _ = false
leads_to legacy_manual_hold legacy_manual_hold = true
leads_to legacy_manual_hold _ = false

pub leads_to_refl : (s : IntentStatus) → leads_to s s ≡ true
leads_to_refl prepared = refl
leads_to_refl _ = refl

pub leads_to_trans :
    (s t u : IntentStatus) → leads_to s t ≡ true → leads_to t u ≡ true → leads_to s u ≡ true
leads_to_trans prepared t u h k = refl
leads_to_trans s t u h k = ground arith

pub may_advance-leads_to : (s t : IntentStatus) → may_advance s t ≡ true → leads_to s t ≡ true
may_advance-leads_to prepared t h = refl
may_advance-leads_to s t h = ground arith

-- The remote transaction that a row names, as the code reads it.
abbrev pub remote : TransferIntent → String
remote i = strip (text_or_empty i.remote_txid)

pub record Evolves (i j : TransferIntent) : Type 0 where
  pub same_id : j.id ≡ i.id
  pub same_request : j.request ≡ i.request
  pub same_reference : j.reference ≡ i.reference
  pub forward : leads_to i.status j.status ≡ true
  pub same_remote : (is_empty (remote i) ≡ true) ⊎ (remote j ≡ remote i)
  pub contract_kept : (i.contract_id ≡ none) ⊎ (j.contract_id ≡ i.contract_id)

pub Evolves-refl : (i : TransferIntent) → Evolves i i
Evolves-refl i = record {
  same_id = refl;
  same_request = refl;
  same_reference = refl;
  forward = leads_to_refl i.status;
  same_remote = inr refl;
  contract_kept = inr refl;
}

-- A value that stays unless it is empty.
kept_unless :
    {A : Type 0} (P : A → Type 0) {x y z : A} → P x ⊎ (y ≡ x) → P y ⊎ (z ≡ y) → P x ⊎ (z ≡ x)
kept_unless P (inl e) b = inl e
kept_unless P (inr e) (inl f) = inl (subst P e f)
kept_unless P (inr e) (inr f) = inr (f ∙ e)

pub Evolves-trans : {i j k : TransferIntent} → Evolves i j → Evolves j k → Evolves i k
Evolves-trans {i} {j} {k} a b = record {
  same_id = b.same_id ∙ a.same_id;
  same_request = b.same_request ∙ a.same_request;
  same_reference = b.same_reference ∙ a.same_reference;
  forward = leads_to_trans i.status j.status k.status a.forward b.forward;
  same_remote = kept_unless (λ r. is_empty r ≡ true) a.same_remote b.same_remote;
  contract_kept = kept_unless (λ c. c ≡ none) a.contract_kept b.contract_kept;
}

-- A row that is found stays found, and has evolved.
abbrev pub Advances : Option TransferIntent → Option TransferIntent → Type 0
Advances none _ = Unit
Advances (some i) none = ⊥
Advances (some i) (some j) = Evolves i j

pub Advances-refl : (o : Option TransferIntent) → Advances o o
Advances-refl none = tt
Advances-refl (some i) = Evolves-refl i

pub Advances-trans : (o p q : Option TransferIntent) → Advances o p → Advances p q → Advances o q
Advances-trans none p q a b = tt
Advances-trans (some i) none q a b = absurd a
Advances-trans (some i) (some j) none a b = absurd b
Advances-trans (some i) (some j) (some k) a b = Evolves-trans a b

-- An UPDATE of one row: the named row is changed, and every other stays.
module _ (id : String) (f : TransferIntent → TransferIntent)
    (keeps_id : (i : TransferIntent) → (f i).id ≡ i.id) where
  pub get-update_intent :
      (is : List TransferIntent)
      → get_intent id (update_intent id f is) ≡ Option.map f (get_intent id is)
  get-update_intent [] = refl
  get-update_intent (i ∷ is) = elim (Bool-cases (i.id == id)) [
    | inl h ↦ simp (h, keeps_id i)
    | inr h ↦ simp (h, get-update_intent is)
  ]

  pub get-update_intent-other :
      (p : String) (is : List TransferIntent)
      → str_eq p id ≡ false
      → get_intent p (update_intent id f is) ≡ get_intent p is
  get-update_intent-other p [] n = refl
  get-update_intent-other p (i ∷ is) n = elim (Bool-cases (i.id == id)) [
    | inl h ↦ simp (h, keeps_id i, differs i.id h, get-update_intent-other p is n)
    | inr h ↦ simp (h, get-update_intent-other p is n)
  ]
    where
      differs : (q : String) → str_eq q id ≡ true → str_eq q p ≡ false
      differs q e = ground (arith, str_eq_iff q id, str_eq_iff q p, str_eq_iff p id)

  pub update_intent-Advances :
      (p : String) (is : List TransferIntent)
      → ((i : TransferIntent) → get_intent id is ≡ some i → Evolves i (f i))
      → Advances (get_intent p is) (get_intent p (update_intent id f is))
  update_intent-Advances p is h = elim (Bool-cases (str_eq p id)) [
    | inl e ↦ rw ((str_eq_iff p id).0 e, get-update_intent is) (found (get_intent id is) h)
    | inr n ↦ rw (get-update_intent-other p is n) (Advances-refl _)
  ]
    where
      found :
          (o : Option TransferIntent)
          → ((i : TransferIntent) → o ≡ some i → Evolves i (f i))
          → Advances o (Option.map f o)
      found none h = tt
      found (some i) h = h i refl
