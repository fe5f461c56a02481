-- ===== src/Memo/Digits.antt =====
-- The decimal text of a number reads back as the number.
use Prim.Native.Char.{Char, code}
use Prim.Native.String.{String, ◌++◌}
use text.Mathlib.TextLemmas.{nil-append, cons-append}
use swap_service.Base.{
  ℕ, zero, suc, ◌+◌, ◌-◌, ◌*◌, ◌/◌, ◌%◌, ◌<◌, ◌≡◌, refl, ◌∙◌, pos, true, inl, inr, ltb, digit,
  decimal_digits, decimal, Bool-cases, arith,
}
use swap_service.Memo.Parse.{is_digit, all_chars, number_from, is_contract_id_text}

-- A decimal digit is one character.
digit_char : (d : ℕ) → d < 10 → (c : Char) × (digit d ≡ String.◌∷◌ c String.[]) × (code c ≡ 48 + d)
unfolding digit
digit_char zero h = ("0", refl, refl)
digit_char (suc zero) h = ("1", refl, refl)
digit_char (suc (suc zero)) h = ("2", refl, refl)
digit_char (suc (suc (suc zero))) h = ("3", refl, refl)
digit_char (suc (suc (suc (suc zero)))) h = ("4", refl, refl)
digit_char (suc (suc (suc (suc (suc zero))))) h = ("5", refl, refl)
digit_char (suc (suc (suc (suc (suc (suc zero)))))) h = ("6", refl, refl)
digit_char (suc (suc (suc (suc (suc (suc (suc zero))))))) h = ("7", refl, refl)
digit_char (suc (suc (suc (suc (suc (suc (suc (suc zero)))))))) h = ("8", refl, refl)
digit_char (suc (suc (suc (suc (suc (suc (suc (suc (suc zero))))))))) h = ("9", refl, refl)
digit_char (suc (suc (suc (suc (suc (suc (suc (suc (suc (suc d)))))))))) h = absurd (omega arith)

-- In front of a text it is one character.
digit_onto :
    (d : ℕ) (rest : String)
    → d < 10
    → (c : Char) × (digit d ++ rest ≡ String.◌∷◌ c rest) × (code c ≡ 48 + d)
digit_onto d rest h = let (c, e, k) = digit_char d h in (c, rw (e, cons-append, nil-append) refl, k)

digit-number :
    (d acc : ℕ) (rest : String)
    → d < 10
    → number_from acc (digit d ++ rest) ≡ number_from (acc * 10 + d) rest
unfolding number_from
digit-number d acc rest h =
    let (c, e, k) = digit_onto d rest h in
    let z : 48 + d - 48 ≡ d = omega arith in rw (e, k, z) refl

digit-chars :
    (d : ℕ) (rest : String)
    → d < 10
    → all_chars is_digit (digit d ++ rest) ≡ all_chars is_digit rest
unfolding all_chars is_digit
digit-chars d rest h =
    let (c, e, k) = digit_onto d rest h in
    rw e (let t : is_digit c ≡ true = ground (arith, k) in rw t refl)

-- The digits of `n` leave `n` to be read, in front of what follows.
number-digits :
    (fuel n : ℕ) (rest : String)
    → n < fuel
    → number_from 0 (decimal_digits fuel n rest) ≡ number_from n rest
unfolding decimal_digits
number-digits zero n rest h = absurd (omega arith)
number-digits (suc fuel) n rest h = elim (Bool-cases (ltb n 10)) [
  | inl b ↦
      let z : 0 * 10 + n ≡ n = omega arith in
      rw b (digit-number n 0 rest (ground (arith, b)) ∙ (rw z refl))
  | inr b ↦
      let e : n / 10 * 10 + n % 10 ≡ n = omega arith in
      rw b (
        number-digits fuel (n / 10) (digit (n % 10) ++ rest) (ground (arith, b))
        ∙ (digit-number (n % 10) (n / 10) rest (omega arith) ∙ (rw e refl)))
]

chars-digits :
    (fuel n : ℕ) (rest : String)
    → n < fuel
    → all_chars is_digit (decimal_digits fuel n rest) ≡ all_chars is_digit rest
unfolding decimal_digits
chars-digits zero n rest h = absurd (omega arith)
chars-digits (suc fuel) n rest h = elim (Bool-cases (ltb n 10)) [
  | inl b ↦ rw b (digit-chars n rest (ground (arith, b)))
  | inr b ↦ rw b (
      chars-digits fuel (n / 10) (digit (n % 10) ++ rest) (ground (arith, b))
      ∙ digit-chars (n % 10) rest (omega arith))
]

-- The first digit of a positive number is not 0.
leading :
    (fuel n : ℕ) (rest : String)
    → n < fuel
    → 0 < n
    → (c : Char) × (s : String) × (decimal_digits fuel n rest ≡ String.◌∷◌ c s)
      × (48 < code c)
      × (code c < 58)
unfolding decimal_digits
leading zero n rest h p = absurd (omega arith)
leading (suc fuel) n rest h p = elim (Bool-cases (ltb n 10)) [
  | inl b ↦
      let (c, e, k) = digit_onto n rest (ground (arith, b)) in
      (c, rest, rw b e, ground (arith, k), ground (arith, k, b))
  | inr b ↦
      let (c, s, e, lo, hi) =
        leading fuel (n / 10) (digit (n % 10) ++ rest) (ground (arith, b)) (ground (arith, b)) in
      (c, s, rw b e, lo, hi)
]

-- `int(str(n))` is `n`.
pub number-decimal : (n : ℕ) → number_from 0 (decimal (pos n)) ≡ n
unfolding decimal number_from
number-decimal n = number-digits (n + 1) n "" (omega arith)

pub decimal-digits : (n : ℕ) → all_chars is_digit (decimal (pos n)) ≡ true
unfolding decimal all_chars
decimal-digits n = chars-digits (n + 1) n "" (omega arith)

-- The text of a number is one that the contract identity's pattern accepts.
pub is_contract_id_text-decimal : (n : ℕ) → is_contract_id_text (decimal (pos n)) ≡ true
unfolding is_contract_id_text decimal all_chars is_digit
is_contract_id_text-decimal zero = refl
is_contract_id_text-decimal (suc n) =
    let (c, s, e, lo, hi) = leading (suc n + 1) (suc n) "" (omega arith) (omega arith) in
    let t : all_chars is_digit (String.◌∷◌ c s) ≡ true = rw e at (decimal-digits (suc n)) in
    let t' : all_chars is_digit s ≡ true = ground (arith, t) in rw (e, t') (ground (arith, lo, hi))
