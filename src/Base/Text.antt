-- ===== src/Base/Text.antt =====
-- Python's text: `str.strip`, `len` and `str(n)`.
use Prim.Native.Nat.{ℕ, zero, suc, ◌+◌, ◌/◌, ◌%◌}
use Prim.Native.Char.{Char, code}
use Prim.Native.String.{String, ◌++◌}
use mathlib.Core.Bool.{Bool, true, false, ◌&&◌, ◌||◌}
use mathlib.Core.Path.{◌≡◌, refl, ap, ◌∙◌}
use mathlib.Core.Logic.{inl, inr}
use swap_service.Base.Tests.{ltb, leb, nat_eq, if◌then◌else◌, Bool-cases}
use swap_service.Base.Int.{ℤ, pos, negsuc}

-- `str.isspace` of one character.
unfoldable pub is_space : Char → Bool
is_space c =
    (leb 9 (code c) && leb (code c) 13)
    || (leb 28 (code c) && leb (code c) 32)
    || nat_eq (code c) 133
    || nat_eq (code c) 160
    || nat_eq (code c) 5760
    || (leb 8192 (code c) && leb (code c) 8202)
    || nat_eq (code c) 8232
    || nat_eq (code c) 8233
    || nat_eq (code c) 8239
    || nat_eq (code c) 8287
    || nat_eq (code c) 12288

unfoldable pub strip_left : String → String
strip_left String.[] = String.[]
strip_left (String.◌∷◌ c s) = if is_space c then strip_left s else String.◌∷◌ c s

abbrev pub is_empty : String → Bool
is_empty String.[] = true
is_empty (String.◌∷◌ c s) = false

unfoldable pub strip_right : String → String
strip_right String.[] = String.[]
strip_right (String.◌∷◌ c s) =
    let rest = strip_right s in if is_empty rest && is_space c then String.[] else String.◌∷◌ c rest

-- `text.strip()`.
unfoldable pub strip : String → String
unfolding is_space strip_left strip_right
strip s = strip_right (strip_left s)

-- `len(text)`.
abbrev pub text_length : String → ℕ
text_length String.[] = 0
text_length (String.◌∷◌ c s) = suc (text_length s)

unfoldable pub digit : ℕ → String
digit d =
    if nat_eq d 0
    then "0"
    else if nat_eq d 1
    then "1"
    else if nat_eq d 2
    then "2"
    else if nat_eq d 3
    then "3"
    else if nat_eq d 4
    then "4"
    else if nat_eq d 5
    then "5"
    else if nat_eq d 6
    then "6"
    else if nat_eq d 7
    then "7"
    else if nat_eq d 8
    then "8"
    else "9"

-- The digits of `n` in front of `rest`; a number has at most as many digits as its value plus one.
unfoldable pub decimal_digits : ℕ → ℕ → String → String
decimal_digits zero n rest = rest
decimal_digits (suc fuel) n rest =
    let more = decimal_digits fuel (n / 10) (digit (n % 10) ++ rest) in
    if ltb n 10 then digit n ++ rest else more

-- `str(n)` of an integer.
unfoldable pub decimal : ℤ → String
unfolding digit decimal_digits
decimal (pos n) = decimal_digits (n + 1) n ""
decimal (negsuc n) = "-" ++ decimal_digits (n + 2) (n + 1) ""

strip_left-strip_left : (s : String) → strip_left (strip_left s) ≡ strip_left s
unfolding strip_left
strip_left-strip_left String.[] = refl
strip_left-strip_left (String.◌∷◌ c s) = elim (Bool-cases (is_space c)) [
  | inl h ↦ rw h (strip_left-strip_left s)
  | inr h ↦ rw (h, h) refl
]

strip_right-strip_right : (s : String) → strip_right (strip_right s) ≡ strip_right s
unfolding strip_right
strip_right-strip_right String.[] = refl
strip_right-strip_right (String.◌∷◌ c s) =
    elim (Bool-cases (is_empty (strip_right s) && is_space c)) [
      | inl h ↦ rw h refl
      | inr h ↦ rw h (rw (strip_right-strip_right s) (rw h refl))
    ]

strip_left-strip_right :
    (s : String) → strip_left (strip_right (strip_left s)) ≡ strip_right (strip_left s)
unfolding strip_left strip_right
strip_left-strip_right String.[] = refl
strip_left-strip_right (String.◌∷◌ c s) = elim (Bool-cases (is_space c)) [
  | inl h ↦ rw h (strip_left-strip_right s)
  | inr h ↦ rw h (kept c s h)
]
  where
    solid : (b : Bool) → (b && false) ≡ false
    solid true = refl
    solid false = refl

    kept :
        (c : Char) (s : String)
        → is_space c ≡ false
        → strip_left (strip_right (String.◌∷◌ c s)) ≡ strip_right (String.◌∷◌ c s)
    kept c s h = rw (h, solid (is_empty (strip_right s))) (rw h refl)

-- Stripping twice is stripping once.
pub strip-strip : (s : String) → strip (strip s) ≡ strip s
unfolding strip
strip-strip s = ap strip_right (strip_left-strip_right s) ∙ strip_right-strip_right (strip_left s)
