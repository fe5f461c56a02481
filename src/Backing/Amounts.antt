-- ===== src/Backing/Amounts.antt =====
-- `rescale_units` of src/config.py and its two uses.
use swap_service.Base.{ℕ, ◌-◌, ◌^◌, ℤ, ◌*ℤ◌, neg, floor_div, ◌==◌, ℕ_eq, ltb, Bool, if◌then◌else◌}

unfoldable pub rescale_units : ℤ → ℕ → ℕ → Bool → ℤ
rescale_units amount src_decimals dst_decimals round_up =
    if src_decimals == dst_decimals
    then amount
    else if ltb src_decimals dst_decimals
    then amount *ℤ 10 ^ (dst_decimals - src_decimals)
    else let divisor = 10 ^ (src_decimals - dst_decimals) in
      if round_up then neg (floor_div (neg amount) divisor) else floor_div amount divisor

-- The two decimals of the configuration.
pub record Decimals : Type 0 where
  pub nexus : ℕ
  pub solana : ℕ

unfoldable pub nexus_units_to_solana : Decimals → ℤ → Bool → ℤ
unfolding rescale_units
nexus_units_to_solana d units round_up = rescale_units units d.nexus d.solana round_up

unfoldable pub solana_units_to_nexus : Decimals → ℤ → Bool → ℤ
unfolding rescale_units
solana_units_to_nexus d units round_up = rescale_units units d.solana d.nexus round_up
