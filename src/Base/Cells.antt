-- ===== src/Base/Cells.antt =====
-- A value of Python or a cell of SQLite where the code tests its type. Numbers that are not
-- integers are opaque: a binary float by its mantissa and exponent.
use mathlib.Core.Path.{◌≡◌, refl}
use mathlib.Core.Logic.{◌↔◌}
use mathlib.Core.Bool.{Bool, true, false, ◌&&◌}
use mathlib.Core.Option.{Option, none, some}
use Prim.Native.Nat.{ℕ, zero, suc, ◌<◌}
use Prim.Native.String.{String}
use native.Mathlib.Omega.{arith}
use swap_service.Base.Equality.{Eq, ◌==◌, string_eq, str_eq_iff}
use swap_service.Base.Int.{ℤ, pos, negsuc, int_eq, int_beq_iff}
use swap_service.Base.Outcome.{Result, ok, err, value_error}

pub data Value : Type 0 where
  null : Value
  boolean : Bool → Value
  int : ℤ → Value
  real : ℤ → ℤ → Value
  text : String → Value

-- `v if type(v) is int`: a `bool` is refused.
abbrev pub exact_int : Value → Option ℤ
exact_int (int n) = some n
exact_int _ = none

-- `type(value) is not int or value <= 0` raises.
unfoldable pub require_positive : Value → Result ℕ
require_positive (int (pos (suc n))) = ok (suc n)
require_positive _ = err value_error

-- `type(value) is not int or value < 0` raises.
unfoldable pub require_nonnegative : Value → Result ℕ
require_nonnegative (int (pos n)) = ok n
require_nonnegative _ = err value_error

-- `type(value) is not int` raises.
unfoldable pub require_int : Value → Result ℤ
require_int (int n) = ok n
require_int _ = err value_error

abbrev pub bool_beq : Bool → Bool → Bool
bool_beq true true = true
bool_beq false false = true
bool_beq _ _ = false

abbrev pub value_beq : Value → Value → Bool
value_beq null null = true
value_beq (boolean a) (boolean b) = bool_beq a b
value_beq (int a) (int b) = a == b
value_beq (real a n) (real b m) = (a == b) && (n == m)
value_beq (text a) (text b) = a == b
value_beq _ _ = false

bool_beq_iff : (a b : Bool) → (bool_beq a b ≡ true) ↔ (a ≡ b)
bool_beq_iff true true = ground arith
bool_beq_iff false false = ground arith
bool_beq_iff true false = ground arith
bool_beq_iff false true = ground arith

pub value_beq_iff : (a b : Value) → (value_beq a b ≡ true) ↔ (a ≡ b)
value_beq_iff null null = ground arith
value_beq_iff (boolean a) (boolean b) = ground (arith, bool_beq_iff a b)
value_beq_iff (int a) (int b) = ground (arith, int_beq_iff a b)
value_beq_iff (real a n) (real b m) = ground (arith, int_beq_iff a b, int_beq_iff n m)
value_beq_iff (text a) (text b) = ground (arith, str_eq_iff a b)
value_beq_iff _ _ = ground arith

instance abbrev pub value_eq : Eq Value
value_eq = record { same = value_beq; same_iff = value_beq_iff }

pub require_positive-eq-ok : (n : ℕ) {m : ℕ} → require_positive (int (pos n)) ≡ ok m → n ≡ m
unfolding require_positive
require_positive-eq-ok zero h = cc
require_positive-eq-ok (suc n) h = cc

pub require_nonnegative-eq-ok : (n : ℕ) {m : ℕ} → require_nonnegative (int (pos n)) ≡ ok m → n ≡ m
unfolding require_nonnegative
require_nonnegative-eq-ok n h = cc

pub require_positive-int : (n : ℕ) → 0 < n → require_positive (int (pos n)) ≡ ok n
unfolding require_positive
require_positive-int zero h = absurd (omega arith)
require_positive-int (suc n) h = refl

pub require_nonnegative-int : (n : ℕ) → require_nonnegative (int (pos n)) ≡ ok n
unfolding require_nonnegative
require_nonnegative-int n = refl

pub value_beq_refl : (v : Value) → value_beq v v ≡ true
value_beq_refl v = (value_beq_iff v v).1 refl

pub require_positive-pos : (v : Value) {n : ℕ} → require_positive v ≡ ok n → 0 < n
unfolding require_positive
require_positive-pos (int (pos (suc n))) h = ground arith
require_positive-pos (int (pos zero)) h = cc
require_positive-pos _ h = cc

pub require_positive-eq-int : (v : Value) {n : ℕ} → require_positive v ≡ ok n → v ≡ int (pos n)
unfolding require_positive
require_positive-eq-int (int (pos (suc n))) h = cc
require_positive-eq-int (int (pos zero)) h = cc
require_positive-eq-int (int (negsuc n)) h = cc
require_positive-eq-int null h = cc
require_positive-eq-int (boolean b) h = cc
require_positive-eq-int (real m e) h = cc
require_positive-eq-int (text s) h = cc

pub require_nonnegative-eq-int :
    (v : Value) {n : ℕ} → require_nonnegative v ≡ ok n → v ≡ int (pos n)
unfolding require_nonnegative
require_nonnegative-eq-int (int (pos n)) h = cc
require_nonnegative-eq-int (int (negsuc n)) h = cc
require_nonnegative-eq-int null h = cc
require_nonnegative-eq-int (boolean b) h = cc
require_nonnegative-eq-int (real m e) h = cc
require_nonnegative-eq-int (text s) h = cc
