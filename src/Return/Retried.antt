-- ===== src/Return/Retried.antt =====
-- The held intent that a worker loads is the one that the preparation compares its retry with.
use swap_service.Base.{
  ℕ, ◌==◌, string_eq, str_eq_iff, ℕ_eq, option_eq, int_eq, not, ◌&&◌, ◌||◌, ◌≡◌, refl, ap, sym,
  subst, ◌∙◌, String, Bool, Option, none, some, inl, inr, true, Result-Holds, if-Holds, if-true,
  Result, ok, err, arith, value_beq_refl, str_eq_refl, and_true,
}
use swap_service.Database.{
  Json, scalar, array, object, Items, no_items, item, Fields, no_fields, field, PendingDeposit,
  CapacityHold, Database,
}
use swap_service.Deposit.{get_deposit}
use swap_service.Return.{
  ReturnKind, refund, quarantine, kind_text, obligation_id, FrozenIntent, parse_intent,
  same_request, same_json, same_items, same_fields, get_hold, is_valid_hold, source_matches,
  held_intent, found_hold, HeldIntent, with_hold, claim_capacity,
}
use swap_service.Return.Evidence.{same_request_refl}

mutual
  unfolding same_json same_items same_fields

  same_json_refl : (a : Json) → same_json a a ≡ true
  same_json_refl (scalar v) = value_beq_refl v
  same_json_refl (array xs) = same_items_refl xs
  same_json_refl (object xs) = same_fields_refl xs

  same_items_refl : (xs : Items) → same_items xs xs ≡ true
  same_items_refl no_items = refl
  same_items_refl (item a xs) = and_true _ _ (same_json_refl a) (same_items_refl xs)

  same_fields_refl : (xs : Fields) → same_fields xs xs ≡ true
  same_fields_refl no_fields = refl
  same_fields_refl (field k a xs) =
      and_true _ _ (and_true _ _ (str_eq_refl k) (same_json_refl a)) (same_fields_refl xs)

kind_text-injective : (k l : ReturnKind) → (kind_text k == kind_text l) ≡ true → k ≡ l
kind_text-injective refund refund h = refl
kind_text-injective quarantine quarantine h = refl
kind_text-injective refund quarantine h = cc
kind_text-injective quarantine refund h = cc

-- What the loading of a held intent has tested.
abbrev pub IsLoaded :
    ReturnKind → String → Option CapacityHold → Option PendingDeposit → FrozenIntent → Json → Type 0
IsLoaded k s hold source f e =
    (h : CapacityHold) × (hold ≡ some h)
    × (h.intent_evidence ≡ e)
    × (parse_intent e ≡ ok f)
    × (is_valid_hold k s h f ≡ true)
    × (source_matches k f source ≡ true)

abbrev pub Loads :
    ReturnKind → String → Option CapacityHold → Option PendingDeposit → HeldIntent → Type 0
Loads k s hold source (inl (f, e)) = IsLoaded k s hold source f e
Loads k s hold source (inr res) = Unit

held_intent-Loads :
    (k : ReturnKind) (s : String) (h : CapacityHold) (m : Result FrozenIntent)
    (o : Option PendingDeposit)
    → parse_intent h.intent_evidence ≡ m
    → Loads k s (some h) o (held_intent k s h m o)
unfolding held_intent
held_intent-Loads k s h (err x) o g = tt
held_intent-Loads k s h (ok f) o g =
    if-Holds (Loads k s (some h) o) (not (is_valid_hold k s h f)) _ _ (λ b. tt)
      (λ b.
        if-Holds (Loads k s (some h) o) (not (source_matches k f o)) _ _ (λ c. tt)
          (λ c. (h, refl, refl, g, ground (arith, b), ground (arith, c))))

found_hold-Loads :
    (k : ReturnKind) (s : String) (hold : Option CapacityHold) (db : Database)
    → Loads k s hold (get_deposit s db.unprocessed_sigs) (found_hold k s hold db)
unfolding found_hold
found_hold-Loads k s none db = tt
found_hold-Loads k s (some h) db =
    held_intent-Loads k s h (parse_intent h.intent_evidence) (get_deposit s db.unprocessed_sigs)
      refl

accepts :
    (k : ReturnKind) (s : String) (h : CapacityHold) (f : FrozenIntent) (supplied : Bool)
    → is_valid_hold k s h f ≡ true
    → (h.kind == kind_text f.request.kind)
        && (h.obligation_id == obligation_id f.request.kind f.request.source_sig)
        && (h.needed_units == f.request.payout_units)
        && same_request f.request f.request
        && (not supplied || same_json h.intent_evidence h.intent_evidence)
      ≡ true
accepts k s h f supplied v =
    let same_kind : (kind_text f.request.kind == kind_text k) ≡ true = ground (arith, v) in
    let k_eq : f.request.kind ≡ k = kind_text-injective f.request.kind k same_kind in
    let s_eq : f.request.source_sig ≡ s = ground (arith, v, str_eq_iff f.request.source_sig s) in
    let of_k : (h.kind == kind_text k) ≡ true = ground (arith, v) in
    let of_o : (h.obligation_id == obligation_id k s) ≡ true = ground (arith, v) in
    let of_n : (h.needed_units == f.request.payout_units) ≡ true = ground (arith, v) in
    let of_j : (not supplied || same_json h.intent_evidence h.intent_evidence) ≡ true =
      ground (arith, same_json_refl h.intent_evidence) in
    and_true _ _
      (and_true _ _
        (and_true _ _
          (and_true _ _ (subst (λ x. (h.kind == kind_text x) ≡ true) (sym k_eq) of_k) (
            subst (λ x. (h.obligation_id == obligation_id x f.request.source_sig) ≡ true) (sym k_eq)
              (subst (λ x. (h.obligation_id == obligation_id k x) ≡ true) (sym s_eq) of_o)))
          of_n)
        (same_request_refl f.request))
      of_j

retries :
    (k : ReturnKind) (s : String) (h : CapacityHold) (f : FrozenIntent) (supplied : Bool)
    (cap now : ℕ) (r : PendingDeposit) (db : Database)
    → parse_intent h.intent_evidence ≡ ok f
    → is_valid_hold k s h f ≡ true
    → with_hold f.request supplied h.intent_evidence (some h) cap now r db
      ≡ claim_capacity f.request h.intent_evidence (some h) cap now r db
unfolding with_hold
retries k s h f supplied cap now r db parsed valid =
    Result-Holds (λ x. x ≡ claim_capacity f.request h.intent_evidence (some h) cap now r db)
      (parse_intent h.intent_evidence) _ _ (λ x g. cc)
      (λ g p.
        let same : f ≡ g = cc in
        if-true _ _ _ (
          subst
            (λ y.
              (h.kind == kind_text f.request.kind)
                && (h.obligation_id == obligation_id f.request.kind f.request.source_sig)
                && (h.needed_units == f.request.payout_units)
                && same_request y.request f.request
                && (not supplied || same_json h.intent_evidence h.intent_evidence)
              ≡ true)
            same (accepts k s h f supplied valid)))

-- A held intent that is loaded is of the hold that the preparation finds, its source stands as it was
-- frozen, and preparing the very terms again passes the comparison with that hold, whether its
-- evidence is supplied or not: the return goes on to the capacity.
pub loaded_retries :
    (k : ReturnKind) (s : String) (f : FrozenIntent) (e : Json) (supplied : Bool) (cap now : ℕ)
    (r : PendingDeposit) (db : Database)
    → found_hold k s (get_hold s db.capacity_holds) db ≡ inl (f, e)
    → (h : CapacityHold) × (get_hold s db.capacity_holds ≡ some h)
      × (source_matches k f (get_deposit s db.unprocessed_sigs) ≡ true)
      × (with_hold f.request supplied e (some h) cap now r db
          ≡ claim_capacity f.request e (some h) cap now r db)
loaded_retries k s f e supplied cap now r db l =
    let (h, found, same, parsed, valid, matches) =
      subst (Loads k s (get_hold s db.capacity_holds) (get_deposit s db.unprocessed_sigs)) l
        (found_hold-Loads k s (get_hold s db.capacity_holds) db) in
    (
      h,
      found,
      matches,
      subst
          (λ x.
            with_hold f.request supplied x (some h) cap now r db
            ≡ claim_capacity f.request x (some h) cap now r db)
          same (retries k s h f supplied cap now r db (ap parse_intent same ∙ parsed) valid),
    )
