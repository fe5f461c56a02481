-- ===== src/Deposit/Freezing.antt =====
-- The queue of deposits and its sums after an UPDATE of one row.
use swap_service.Base.{
  ◌≡◌, refl, inl, inr, ◌==◌, string_eq, str_eq_iff, String, true, false, none, some, List, [], ◌∷◌,
  ok, option_eq, Bool-cases, arith,
}
use swap_service.Database.{Json, PendingDeposit}
use swap_service.Deposit.Evidence.{FrozenDecision, parse_frozen_evidence}
use swap_service.Deposit.Pending.{get_deposit, put_deposit, delete_deposit, has_source, sum_pending}

pub get-delete :
    (s : String) (rs : List PendingDeposit) → get_deposit s (delete_deposit s rs) ≡ none
get-delete s [] = refl
get-delete s (r ∷ rs) = ground (arith, get-delete s rs)

pub get-delete_other :
    (s t : String) (rs : List PendingDeposit)
    → (t == s) ≡ false
    → get_deposit s (delete_deposit t rs) ≡ get_deposit s rs
get-delete_other s t [] h = refl
get-delete_other s t (r ∷ rs) h =
    ground
      (arith, h, get-delete_other s t rs h, str_eq_iff r.sig t, str_eq_iff r.sig s, str_eq_iff t s)

pub get-put :
    (s : String) (r r' : PendingDeposit) (rs : List PendingDeposit)
    → r'.sig ≡ s
    → get_deposit s rs ≡ some r
    → get_deposit s (put_deposit r' rs) ≡ some r'
get-put s r r' [] e h = cc
get-put s r r' (q ∷ qs) e h = elim (Bool-cases (q.sig == s)) [
  | inl b ↦ ground (arith, e, b, h, str_eq_iff q.sig s, str_eq_iff r'.sig s)
  | inr b ↦ ground (arith, e, b, h, get-put s r r' qs, str_eq_iff q.sig s, str_eq_iff r'.sig s)
]

pub get-put_other :
    (s : String) (r' : PendingDeposit) (rs : List PendingDeposit)
    → (r'.sig == s) ≡ false
    → get_deposit s (put_deposit r' rs) ≡ get_deposit s rs
get-put_other s r' [] e = refl
get-put_other s r' (q ∷ qs) e = elim (Bool-cases (q.sig == r'.sig)) [
  | inl b ↦ ground (arith, e, b, str_eq_iff q.sig s, str_eq_iff r'.sig s, str_eq_iff q.sig r'.sig)
  | inr b ↦ ground (arith, e, b, get-put_other s r' qs)
]

pub get-sig :
    (s : String) (r : PendingDeposit) (rs : List PendingDeposit)
    → get_deposit s rs ≡ some r
    → r.sig ≡ s
get-sig s r [] h = cc
get-sig s r (q ∷ qs) h = ground (arith, h, get-sig s r qs, str_eq_iff q.sig s)

-- An update that keeps a row's amount keeps the sum.
pub sum_pending-put :
    (s : String) (r r' : PendingDeposit) (rs : List PendingDeposit)
    → r'.sig ≡ s
    → r'.amount_usdc_units ≡ r.amount_usdc_units
    → get_deposit s rs ≡ some r
    → sum_pending (put_deposit r' rs) ≡ sum_pending rs
unfolding sum_pending
sum_pending-put s r r' [] e k h = cc
sum_pending-put s r r' (q ∷ qs) e k h = elim (Bool-cases (q.sig == s)) [
  | inl b ↦
      ground (arith, e, k, b, h, str_eq_iff q.sig s, str_eq_iff r'.sig s, str_eq_iff q.sig r'.sig)
  | inr b ↦ ground (
    arith,
    e,
    k,
    b,
    h,
    sum_pending-put s r r' qs,
    str_eq_iff q.sig s,
    str_eq_iff r'.sig s,
    str_eq_iff q.sig r'.sig,
  )
]

-- The row holds evidence that reads back as `p`, a decision for the row's own source.
abbrev pub IsFrozen : String → FrozenDecision → PendingDeposit → Type 0
IsFrozen sig p r =
    (e : Json) × (r.policy_evidence ≡ some e)
    × (parse_frozen_evidence e ≡ ok p)
    × (p.signature ≡ sig)
    × (has_source r p ≡ true)
    × (r.policy_decision ≡ some p.decision)

-- Two decisions about one deposit, whatever the terms of each.
abbrev pub SameSource : FrozenDecision → FrozenDecision → Type 0
SameSource p q =
    (p.timestamp ≡ q.timestamp)
    × (p.memo ≡ q.memo)
    × (p.from_address ≡ q.from_address)
    × (p.input_units ≡ q.input_units)

pub has_source-SameSource :
    (r : PendingDeposit) (p q : FrozenDecision) → SameSource p q → has_source r p ≡ has_source r q
has_source-SameSource r p q (a, b, c, d) = simp (a, b, c, d)

-- What a classification leaves of the row.
abbrev pub Keeps : PendingDeposit → PendingDeposit → Type 0
Keeps r r' =
    (r'.sig ≡ r.sig)
    × (r'.timestamp ≡ r.timestamp)
    × (r'.amount_usdc_units ≡ r.amount_usdc_units)
    × (r'.from_address ≡ r.from_address)
    × (r'.memo ≡ r.memo)
    × (r'.reference ≡ r.reference)
    × (r'.amount_usdd_units ≡ r.amount_usdd_units)
