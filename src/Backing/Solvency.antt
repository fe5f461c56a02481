-- ===== src/Backing/Solvency.antt =====
-- What the vault still covers when a surplus is spent, or when no pause is asked for.
use swap_service.Base.{
  sub_ℕ, Result-cases, inl, inr, Bool-cases, ℕ, pos, ◌+◌, ◌-◌, ◌*◌, ◌^◌, ◌≤◌, ◌<◌, ◌≡◌, ℤ, ◌-ℤ◌,
  ◌*ℤ◌, pos_part, ltb_ℤ, false, ◌&&◌, Result, ok, >>=-eq-ok, arith,
}
use swap_service.Database.{Database}
use swap_service.Deposit.{get_unresolved_solana_liability_units}
use swap_service.Backing.Amounts.{Decimals, nexus_units_to_solana}
use swap_service.Backing.Surplus.{
  available_backing_surplus_solana_units, is_below_floor, maintain_backing_and_bounds,
}
use swap_service.Backing.Rounding.{rescale_covers}

surplus_parts : (v c l : ℕ) → pos_part (pos v -ℤ pos c -ℤ pos l) ≡ v - c - l
unfolding ◌-ℤ◌
surplus_parts v c l = ground arith

mul_mono : (a b m : ℕ) → a ≤ b → a * m ≤ b * m
mul_mono a b m h = grind arith

-- Spending no more than the surplus leaves the vault worth, in tokens, at least the circulating
-- supply and every unresolved deposit.
pub surplus_covers :
    (d : Decimals) (vault circulating liability surplus spent : ℕ) (db : Database)
    → get_unresolved_solana_liability_units db ≡ ok liability
    → available_backing_surplus_solana_units d (pos vault) (pos circulating) db ≡ ok surplus
    → spent ≤ surplus
    → 0 < spent
    → circulating * 10 ^ d.solana + (liability + spent) * 10 ^ d.nexus ≤ vault * 10 ^ d.nexus
unfolding available_backing_surplus_solana_units nexus_units_to_solana
surplus_covers d vault circulating liability surplus spent db hl h hs hp =
    let (c, e, covers, _) = rescale_covers circulating d.nexus d.solana in
    let h' : ok (vault - c - liability) ≡ ok surplus =
      rw (hl, e, surplus_parts vault c liability) at h in
    let k : vault - c - liability ≡ surplus = cc in
    let m : (c + (liability + spent)) * 10 ^ d.nexus ≤ vault * 10 ^ d.nexus =
      mul_mono (c + (liability + spent)) vault (10 ^ d.nexus) (omega arith) in
    grind (arith, m, covers)

below_parts : (c p a : ℕ) → ltb_ℤ (pos (a * 100)) (pos c *ℤ p) ≡ false → c * p ≤ a * 100
unfolding ◌*ℤ◌
below_parts c p a h =
    let e : ltb_ℤ (pos (a * 100)) (sub_ℕ (c * p) (0 * p)) ≡ false = h in
    let z : 0 * p ≡ 0 = grind arith in
    let e' : ltb_ℤ (pos (a * 100)) (sub_ℕ (c * p) 0) ≡ false = rw z at e in ground (arith, e')

floor_covers :
    (n c pct a m k : ℕ)
    → n * m ≤ c * k
    → (ltb_ℤ (pos 0) (pos c) && ltb_ℤ (pos (a * 100)) (pos c *ℤ pct)) ≡ false
    → n * pct * m ≤ a * 100 * k
floor_covers n c pct a m k h t =
    let e : c * pct ≤ a * 100 = elim (Bool-cases (ltb_ℤ (pos 0) (pos c))) [
      | inl b ↦ below_parts c pct a (rw b at t)
      | inr b ↦ let z : c ≡ 0 = ground (arith, b) in rw z (grind arith)
    ] in
    let x : c * pct * k ≤ a * 100 * k = mul_mono (c * pct) (a * 100) k e in
    let y : n * m * pct ≤ c * k * pct = mul_mono (n * m) (c * k) pct h in grind (arith, x, y)

vault_part : (v l : ℕ) → pos_part (pos v -ℤ pos l) ≡ v - l
unfolding ◌-ℤ◌
vault_part v l = ground arith

not_paused :
    (d : Decimals) (pct : ℕ) (vault circulating : Result ℤ) (db : Database)
    → maintain_backing_and_bounds d pct vault circulating db ≡ false
    → is_below_floor d pct vault circulating db ≡ ok false
unfolding maintain_backing_and_bounds
not_paused d pct vault circulating db h =
    elim (Result-cases (is_below_floor d pct vault circulating db)) [
      | inl (e, n) ↦ ground (arith, n, h)
      | inr (b, n) ↦ ground (arith, n, h)
    ]

-- When no pause is asked for, both balances were read, and the vault's part that is not owed to
-- unresolved deposits is worth at least the configured percentage of the circulating supply.
pub no_pause_covers :
    (d : Decimals) (pct vault circulating : ℕ) (db : Database)
    → maintain_backing_and_bounds d pct (ok (pos vault)) (ok (pos circulating)) db ≡ false
    → (liability : ℕ) × (get_unresolved_solana_liability_units db ≡ ok liability)
      × (circulating * pct * 10 ^ d.solana ≤ (vault - liability) * 100 * 10 ^ d.nexus)
unfolding is_below_floor nexus_units_to_solana
no_pause_covers d pct vault circulating db h =
    let f = not_paused d pct (ok (pos vault)) (ok (pos circulating)) db h in
    let (l, n, g) = >>=-eq-ok (get_unresolved_solana_liability_units db) _ f in
    let (c, e, covers, _) = rescale_covers circulating d.nexus d.solana in
    let g' : ok (ltb_ℤ (pos 0) (pos c) && ltb_ℤ (pos ((vault - l) * 100)) (pos c *ℤ pct))
        ≡ ok false =
      rw (e, vault_part vault l) at g in
    (l, n, floor_covers circulating c pct (vault - l) (10 ^ d.solana) (10 ^ d.nexus) covers cc)

-- No pause is asked for only where both balances and the liability could be read.
pub unread_pauses :
    (d : Decimals) (pct : ℕ) (vault circulating : Result ℤ) (db : Database)
    → maintain_backing_and_bounds d pct vault circulating db ≡ false
    → (v c : ℤ) × (l : ℕ) × (vault ≡ ok v)
      × (circulating ≡ ok c)
      × (get_unresolved_solana_liability_units db ≡ ok l)
unfolding is_below_floor
unread_pauses d pct vault circulating db h =
    let f = not_paused d pct vault circulating db h in
    let (v, hv, f₁) = >>=-eq-ok vault _ f in
    let (l, hl, f₂) = >>=-eq-ok (get_unresolved_solana_liability_units db) _ f₁ in
    let (c, hc, _) = >>=-eq-ok circulating _ f₂ in (v, c, l, hv, hc, hl)
