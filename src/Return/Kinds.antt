-- ===== src/Return/Kinds.antt =====
-- `_SOLANA_SIG_DISPOSITION` and the two tables that it names.
use swap_service.Base.{
  ◌≡◌, refl, String, ◌++◌, Bool, ◌||◌, Option, none, some, List, [], ◌∷◌, ◌==◌, string_eq,
  option_eq, if◌then◌else◌, Result, ok, err, value_error,
}
use swap_service.Database.{ReturnedDeposit, Database}

pub data ReturnKind : Type 0 where
  refund quarantine : ReturnKind

abbrev pub kind_text : ReturnKind → String
kind_text refund = "refund"
kind_text quarantine = "quarantine"

-- `_SOLANA_SIG_DISPOSITION.get(kind)`.
unfoldable pub find_kind : String → Result ReturnKind
find_kind s =
    if s == "refund"
    then ok refund
    else if s == "quarantine"
    then ok quarantine
    else err value_error

abbrev pub opposing : ReturnKind → ReturnKind
opposing refund = quarantine
opposing quarantine = refund

-- `status in ready_statuses`.
abbrev pub is_ready : ReturnKind → Option String → Bool
is_ready refund s = s == some "to be refunded"
is_ready quarantine s = s == some "to be quarantined" || s == some "quarantine failed"

abbrev pub held_status : ReturnKind → String
held_status refund = "refund submission held"
held_status quarantine = "quarantine submission held"

abbrev pub capacity_status : ReturnKind → String
capacity_status refund = "refund capacity held"
capacity_status quarantine = "quarantine capacity held"

abbrev pub evidence_held_status : ReturnKind → String
evidence_held_status refund = "refund evidence held"
evidence_held_status quarantine = "quarantine evidence held"

abbrev pub awaiting_status : ReturnKind → String
awaiting_status refund = "refund sent, awaiting confirmation"
awaiting_status quarantine = "quarantine sent, awaiting confirmation"

abbrev pub terminal_status : ReturnKind → String
terminal_status refund = "refund_confirmed"
terminal_status quarantine = "quarantine_confirmed"

abbrev pub budget_kind : ReturnKind → String
budget_kind refund = "solana_refund"
budget_kind quarantine = "solana_quarantine"

abbrev pub fee_kind : ReturnKind → String
fee_kind refund = "refund_flat_fee"
fee_kind quarantine = "quarantine_flat_fee"

-- `_solana_sig_disposition_obligation_id`.
abbrev pub obligation_id : ReturnKind → String → String
obligation_id refund s = "refund:" ++ s
obligation_id quarantine s = "quarantine:" ++ s

abbrev pub by_kind {ℓ} : {A : Type ℓ} → ReturnKind → A → A → A
by_kind refund a b = a
by_kind quarantine a b = b

module _ {ℓ} {A : Type ℓ} where
  pub by_kind-same : (k : ReturnKind) (x a b : A) → by_kind k (by_kind k x a) (by_kind k b x) ≡ x
  by_kind-same refund x a b = refl
  by_kind-same quarantine x a b = refl

  pub by_kind-first : (k : ReturnKind) (x y a : A) → by_kind k x (by_kind k y a) ≡ by_kind k x a
  by_kind-first refund x y a = refl
  by_kind-first quarantine x y a = refl

  pub by_kind-second : (k : ReturnKind) (x y a : A) → by_kind k (by_kind k a y) x ≡ by_kind k a x
  by_kind-second refund x y a = refl
  by_kind-second quarantine x y a = refl

-- The rows of `details["table"]`.
abbrev pub returned : ReturnKind → Database → List ReturnedDeposit
returned k db = by_kind k db.refunded_sigs db.quarantined_sigs

abbrev pub set_returned : ReturnKind → List ReturnedDeposit → Database → Database
set_returned k rows db = record db {
  refunded_sigs = by_kind k rows db.refunded_sigs;
  quarantined_sigs = by_kind k db.quarantined_sigs rows;
}

abbrev pub get_returned : String → List ReturnedDeposit → Option ReturnedDeposit
get_returned s [] = none
get_returned s (r ∷ rs) = if r.sig == s then some r else get_returned s rs

-- An UPDATE of the row with the primary key of `r`.
abbrev pub put_returned : ReturnedDeposit → List ReturnedDeposit → List ReturnedDeposit
put_returned r [] = []
put_returned r (q ∷ qs) = if q.sig == r.sig then r ∷ qs else q ∷ put_returned r qs
