-- ===== src/Backing/Tests.antt =====
-- Runs of the backing functions, and their theorems at concrete balances.
use swap_service.Base.{
  ℕ, pos, negsuc, ◌+◌, ◌-◌, ◌*◌, ◌^◌, ◌≤◌, ◌≡◌, refl, ◌+ℤ◌, ◌-ℤ◌, ◌*ℤ◌, neg, floor_div, true, false,
  none, some, [], ◌∷◌, ok, err, runtime_error, arith,
}
use swap_service.Database.{empty_database, Database, DepositHold}
use swap_service.Deposit.{get_unresolved_solana_liability_units, sum_pending, sum_held}
use swap_service.Backing.Amounts.{Decimals, rescale_units, nexus_units_to_solana}
use swap_service.Backing.Surplus.{
  available_backing_surplus_solana_units, is_below_floor, maintain_backing_and_bounds,
}
use swap_service.Backing.Solvency.{surplus_covers, no_pause_covers}

abbrev hold : DepositHold
hold = record {
  signature = "s1";
  block_timestamp = pos 1000;
  memo = none;
  from_address = none;
  amount_units = some (pos 30);
  reason = "no memo";
}

abbrev holding : Database
holding = record empty_database { deposit_holds = hold ∷ [] }

-- An unquantified hold is an error.
unquantified_run :
    get_unresolved_solana_liability_units
      (record empty_database { deposit_holds = record hold { amount_units = none } ∷ [] })
    ≡ err runtime_error
unfolding get_unresolved_solana_liability_units
unquantified_run = refl

liability_run : get_unresolved_solana_liability_units holding ≡ ok 30
unfolding get_unresolved_solana_liability_units sum_pending sum_held ◌+ℤ◌
liability_run = refl

-- Eight Nexus decimals to six: a remainder is rounded up.
rescale_run : rescale_units (pos 12345) 8 6 true ≡ pos 124
unfolding rescale_units neg floor_div
rescale_run = refl

negative_run : rescale_units (negsuc 12344) 8 6 false ≡ negsuc 123
unfolding rescale_units floor_div
negative_run = refl

abbrev decimals : Decimals
decimals = record { nexus = 8; solana = 6 }

surplus_run :
    available_backing_surplus_solana_units decimals (pos 1000) (pos 90_001) holding ≡ ok 69
unfolding available_backing_surplus_solana_units nexus_units_to_solana rescale_units
    get_unresolved_solana_liability_units sum_pending sum_held neg floor_div ◌+ℤ◌ ◌-ℤ◌
surplus_run = refl

pause_run :
    maintain_backing_and_bounds decimals 90 (ok (pos 1000)) (ok (pos 90_001)) holding ≡ false
unfolding maintain_backing_and_bounds is_below_floor nexus_units_to_solana rescale_units
    get_unresolved_solana_liability_units sum_pending sum_held neg floor_div ◌+ℤ◌ ◌-ℤ◌ ◌*ℤ◌
pause_run = refl

surplus_covers_example : 90_001 * 10 ^ 6 + (30 + 69) * 10 ^ 8 ≤ 1000 * 10 ^ 8
surplus_covers_example =
    surplus_covers decimals 1000 90_001 30 69 69 holding liability_run surplus_run (omega arith)
      (omega arith)

no_pause_covers_example :
    (liability : ℕ) × (get_unresolved_solana_liability_units holding ≡ ok liability)
    × (90_001 * 90 * 10 ^ 6 ≤ (1000 - liability) * 100 * 10 ^ 8)
no_pause_covers_example = no_pause_covers decimals 90 1000 90_001 holding pause_run
