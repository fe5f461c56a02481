-- ===== src/Backing/Surplus.antt =====
-- `available_backing_surplus_solana_units` and `maintain_backing_and_bounds` of src/fees.py. The
-- balances that the clients read are arguments, which may be errors.
use swap_service.Base.{
  ℕ, pos, ◌*◌, ℤ, ◌-ℤ◌, ◌*ℤ◌, pos_part, ltb_ℤ, Bool, true, ◌&&◌, Result, ok, err, ◌>>=◌,
}
use swap_service.Database.{Database}
use swap_service.Deposit.{get_unresolved_solana_liability_units}
use swap_service.Backing.Amounts.{Decimals, nexus_units_to_solana}

unfoldable pub available_backing_surplus_solana_units : Decimals → ℤ → ℤ → Database → Result ℕ
unfolding nexus_units_to_solana
available_backing_surplus_solana_units d vault circulating db = do
  liability ← get_unresolved_solana_liability_units db
  let circulating_solana = nexus_units_to_solana d circulating true in
      ok (pos_part (vault -ℤ circulating_solana -ℤ pos liability))

-- The test for a pause; `ratio_bps_deficit` is not used.
unfoldable pub is_below_floor : Decimals → ℕ → Result ℤ → Result ℤ → Database → Result Bool
unfolding nexus_units_to_solana
is_below_floor d pause_pct vault_balance circulating db = do
  vault ← vault_balance
  liability ← get_unresolved_solana_liability_units db
  supply ← circulating
  let available = pos_part (vault -ℤ pos liability) in
      let circ_in_solana = nexus_units_to_solana d supply true in
      ok (
        ltb_ℤ (pos 0) circ_in_solana && ltb_ℤ (pos (available * 100)) (circ_in_solana *ℤ pause_pct))

-- `maintain_backing_and_bounds`: an error pauses.
unfoldable pub maintain_backing_and_bounds : Decimals → ℕ → Result ℤ → Result ℤ → Database → Bool
unfolding is_below_floor
maintain_backing_and_bounds d pause_pct vault_balance circulating db =
    elim (is_below_floor d pause_pct vault_balance circulating db) [ ok b ↦ b | err e ↦ true ]
