-- ===== src/Backing/Rounding.antt =====
-- What rescaling an amount loses.
use swap_service.Base.{
  inl, inr, Bool-cases, ℕ, zero, suc, ◌+◌, ◌-◌, ◌*◌, ◌/◌, ◌^◌, ◌≤◌, ◌<◌, ◌≡◌, refl, ap, ◌∙◌, ℤ, pos,
  negsuc, ◌*ℤ◌, neg, floor_div, ℕ_eq, nat_eq_iff, ltb, Bool, true, false, arith,
}
use swap_service.Backing.Amounts.{rescale_units}

ten_pos : (k : ℕ) → 0 < 10 ^ k
ten_pos zero = omega arith
ten_pos (suc k) = omega (arith, ten_pos k)

div_low : (n d : ℕ) → n / d * d ≤ n
div_low n d = grind arith

div_high : (n d : ℕ) → 0 < d → n < (n / d + 1) * d
div_high n d h = grind arith

mul_div : (n d : ℕ) → 0 < d → n * d / d ≡ n
mul_div n d h = grind arith

before_mul_div : (n d : ℕ) → 0 < d → (suc n * d - 1) / d ≡ n
before_mul_div n zero h = absurd (omega arith)
before_mul_div n (suc d) h = grind arith

neg_pos : (n : ℕ) → neg (pos (suc n)) ≡ negsuc n
unfolding neg
neg_pos n = ground arith

neg_negsuc : (n : ℕ) → neg (negsuc n) ≡ pos (suc n)
unfolding neg
neg_negsuc n = ground arith

neg_zero : neg (pos 0) ≡ pos 0
unfolding neg
neg_zero = refl

pos_mul : (n d : ℕ) → pos n *ℤ d ≡ pos (n * d)
unfolding ◌*ℤ◌
pos_mul n d = grind arith

negsuc_mul : (n d : ℕ) → 0 < d → negsuc n *ℤ d ≡ negsuc (suc n * d - 1)
unfolding ◌*ℤ◌
negsuc_mul n d h = grind arith

-- The quotient of an amount that is not negative, rounded up.
ceil : ℕ → ℕ → ℕ
ceil zero d = 0
ceil (suc n) d = n / d + 1

neg-floor-neg : (n d : ℕ) → 0 < d → neg (floor_div (neg (pos n)) d) ≡ pos (ceil n d)
unfolding floor_div ceil
neg-floor-neg zero d h = rw neg_zero (let e : 0 / d ≡ 0 = grind arith in rw e neg_zero)
neg-floor-neg (suc n) d h = rw (neg_pos n, neg_negsuc (n / d)) (ap pos (omega arith))

ceil_covers : (n d : ℕ) → 0 < d → n ≤ ceil n d * d
unfolding ceil
ceil_covers zero d h = omega arith
ceil_covers (suc n) d h = grind (arith, div_high n d h)

ceil_tight : (n d : ℕ) → 0 < d → ceil n d * d < n + d
unfolding ceil
ceil_tight zero d h = omega arith
ceil_tight (suc n) d h = grind (arith, div_low n d)

power_add : (a b : ℕ) → 10 ^ (a + b) ≡ 10 ^ a * 10 ^ b
power_add zero b = let e : 0 + b ≡ b = omega arith in rw e (omega arith)
power_add (suc a) b =
    let e : suc a + b ≡ suc (a + b) = omega arith in
    let f : 10 ^ suc (a + b) ≡ 10 * 10 ^ (a + b) = omega arith in
    let g : 10 ^ suc a ≡ 10 * 10 ^ a = omega arith in rw (e, f, g, power_add a b) (grind arith)

power_sub : (a b : ℕ) → b ≤ a → 10 ^ a ≡ 10 ^ (a - b) * 10 ^ b
power_sub a b h = let e : a ≡ a - b + b = omega arith in ap (λ x. 10 ^ x) e ∙ power_add (a - b) b

mul_mono : (a b m : ℕ) → a ≤ b → a * m ≤ b * m
mul_mono a b m h = grind arith

same_scale : (a : ℤ) (s : ℕ) (r : Bool) → rescale_units a s s r ≡ a
unfolding rescale_units
same_scale a s r = ground (arith, nat_eq_iff s s)

pub scale_up : (a : ℤ) (s d : ℕ) (r : Bool) → s < d → rescale_units a s d r ≡ a *ℤ 10 ^ (d - s)
unfolding rescale_units
scale_up a s d r h = ground (arith, nat_eq_iff s d)

pub scale_down :
    (a : ℤ) (s d : ℕ)
    → d < s
    → (rescale_units a s d true ≡ neg (floor_div (neg a) (10 ^ (s - d))))
      × (rescale_units a s d false ≡ floor_div a (10 ^ (s - d)))
unfolding rescale_units
scale_down a s d h = ground (arith, nat_eq_iff s d)

floor_undo : (a : ℤ) (d : ℕ) → 0 < d → floor_div (a *ℤ d) d ≡ a
unfolding floor_div
floor_undo (pos n) d h = rw (pos_mul n d) (ap pos (mul_div n d h))
floor_undo (negsuc n) d h = rw (negsuc_mul n d h) (ap negsuc (before_mul_div n d h))

ceil_undo : (n d : ℕ) → 0 < d → ceil (n * d) d ≡ n
ceil_undo n d h = grind (arith, ceil_covers (n * d) d h, ceil_tight (n * d) d h)

ceiling_undo : (a : ℤ) (d : ℕ) → 0 < d → neg (floor_div (neg (a *ℤ d)) d) ≡ a
unfolding floor_div
ceiling_undo (pos n) d h = rw (pos_mul n d) (neg-floor-neg (n * d) d h ∙ ap pos (ceil_undo n d h))
ceiling_undo (negsuc n) d h =
    let e : suc (suc n * d - 1) ≡ suc n * d = grind arith in
    rw (negsuc_mul n d h, neg_negsuc (suc n * d - 1), e, mul_div (suc n) d h) (neg_pos n)

-- An amount rescaled to more decimals, or to as many, comes back unchanged, whatever its sign and
-- however the way back rounds.
pub rescale-rescale :
    (a : ℤ) (s d : ℕ) (up back : Bool) → s ≤ d → rescale_units (rescale_units a s d up) d s back ≡ a
rescale-rescale a s d up back h = elim (Bool-cases (ltb s d)) [
  | inr e ↦ let k : s ≡ d = ground (arith, e) in rw (← k, same_scale a s up) (same_scale a s back)
  | inl e ↦
      let k : s < d = ground (arith, e) in
      rw (scale_up a s d up k) (
        scaled_back back (a *ℤ 10 ^ (d - s)) k (ceiling_undo a (10 ^ (d - s)) (ten_pos (d - s)))
          (floor_undo a (10 ^ (d - s)) (ten_pos (d - s))))
]
  where
    scaled_back :
        (back : Bool) (b : ℤ)
        → s < d
        → neg (floor_div (neg b) (10 ^ (d - s))) ≡ a
        → floor_div b (10 ^ (d - s)) ≡ a
        → rescale_units b d s back ≡ a
    scaled_back true b k x y = (scale_down b d s k).0 ∙ x
    scaled_back false b k x y = (scale_down b d s k).1 ∙ y

-- A liability that is rounded up covers the amount it stands for: as a number of tokens it is no
-- less, and it exceeds the amount by less than one unit of the new scale.
pub rescale_covers :
    (n s d : ℕ)
    → (c : ℕ) × (rescale_units (pos n) s d true ≡ pos c)
      × (n * 10 ^ d ≤ c * 10 ^ s)
      × (c * 10 ^ s < n * 10 ^ d + 10 ^ s)
rescale_covers n s d = elim (Bool-cases (ltb d s)) [
  | inl e ↦
      let k : d < s = ground (arith, e) in
      let D = 10 ^ (s - d) in
      let covers = ceil_covers n D (ten_pos (s - d)) in
      let tight = ceil_tight n D (ten_pos (s - d)) in
      (
        ceil n D,
        (scale_down (pos n) s d k).0 ∙ neg-floor-neg n D (ten_pos (s - d)),
        rw (power_sub s d (omega arith)) (rescaled (ceil n D) D (10 ^ d) n covers),
        rw (power_sub s d (omega arith)) (rescaled_tight (ceil n D) D (10 ^ d) n (ten_pos d) tight),
      )
  | inr e ↦ elim (Bool-cases (ltb s d)) [
    | inl e' ↦
        let k : s < d = ground (arith, e') in
        (
          n * 10 ^ (d - s),
          scale_up (pos n) s d true k ∙ pos_mul n (10 ^ (d - s)),
          rw (power_sub d s (omega arith)) (grind arith),
          rw (power_sub d s (omega arith)) (grind (arith, ten_pos s)),
        )
    | inr e' ↦
        let k : s ≡ d = ground (arith, e, e') in
        (
          n,
          rw (← k) (same_scale (pos n) s true),
          rw (← k) (omega arith),
          rw (← k) (omega (arith, ten_pos s)),
        )
  ]
]
  where
    rescaled : (c D m n : ℕ) → n ≤ c * D → n * m ≤ c * (D * m)
    rescaled c D m n h = grind (arith, mul_mono n (c * D) m h)

    rescaled_tight : (c D m n : ℕ) → 0 < m → c * D < n + D → c * (D * m) < n * m + D * m
    rescaled_tight c D m n p h =
        let e : (c * D + 1) * m ≤ (n + D) * m = mul_mono (c * D + 1) (n + D) m (omega (arith, h)) in
        grind (arith, e)
