-- ===== src/Deposit/Limits.antt =====
-- What the terms decide of a deposit, and how its output depends on its amount.
use swap_service.Base.{ℕ, ◌+◌, ◌-◌, ◌*◌, ◌/◌, ◌^◌, ◌≤◌, ◌<◌, ◌≡◌, ◌↔◌, ◌⊎◌, ℕ_eq, nat_eq_iff, arith}
use swap_service.Deposit.Policy.{
  SolanaDepositTerms, payable, refund_oversized, gross_output_units, net_output_units, decide,
}

-- A deposit is payable exactly when it is within the limits, of which a maximum of zero is none,
-- and leaves something to pay.
pub decide_payable_iff :
    (amount output : ℕ) (t : SolanaDepositTerms)
    → (decide amount output t ≡ payable) ↔ (
        (t.minimum_input_units ≤ amount)
        × ((t.maximum_input_units ≡ 0) ⊎ (amount ≤ t.maximum_input_units))
        × (0 < output))
unfolding decide
decide_payable_iff amount output t = ground (arith, nat_eq_iff t.maximum_input_units 0)

-- Only a deposit above a maximum is refunded, and never one below the minimum.
pub decide_refund_iff :
    (amount output : ℕ) (t : SolanaDepositTerms)
    → (decide amount output t ≡ refund_oversized) ↔ (
        (t.minimum_input_units ≤ amount)
        × (0 < t.maximum_input_units)
        × (t.maximum_input_units < amount))
unfolding decide
decide_refund_iff amount output t = ground (arith, nat_eq_iff t.maximum_input_units 0)

pub net-le-gross :
    (amount : ℕ) (t : SolanaDepositTerms) → net_output_units amount t ≤ gross_output_units amount t
unfolding net_output_units
net-le-gross amount t = omega arith

div_mono : (a b d : ℕ) → a ≤ b → a / d ≤ b / d
div_mono a b d h = grind arith

mul_mono : (a b m : ℕ) → a ≤ b → a * m ≤ b * m
mul_mono a b m h = grind arith

gross_mono :
    (a b : ℕ) (t : SolanaDepositTerms) → a ≤ b → gross_output_units a t ≤ gross_output_units b t
unfolding gross_output_units
gross_mono a b t h = ground (
  arith,
  div_mono a b (10 ^ (t.input_decimals - t.output_decimals)),
  mul_mono a b (10 ^ (t.output_decimals - t.input_decimals)),
)

-- A dynamic fee of at most the whole grows no faster than the amount it is taken from.
rest_mono :
    (g g' flat bps : ℕ)
    → bps ≤ 10_000
    → g ≤ g'
    → g - flat - g * bps / 10_000 ≤ g' - flat - g' * bps / 10_000
rest_mono g g' flat bps h k =
    let e : g' * bps ≤ g * bps + (g' - g) * 10_000 =
      let (d, q) : (d : ℕ) × (g' ≡ g + d) = (g' - g, omega arith) in
      let dd : d * bps ≤ d * 10_000 = grind arith in rw q (grind arith) in
    omega arith

-- A larger deposit never pays less.
pub net_mono :
    (a b : ℕ) (t : SolanaDepositTerms)
    → t.fee_basis_points ≤ 10_000
    → a ≤ b
    → net_output_units a t ≤ net_output_units b t
unfolding net_output_units
net_mono a b t h k =
    rest_mono (gross_output_units a t) (gross_output_units b t) t.flat_output_fee_units
      t.fee_basis_points h (gross_mono a b t k)
