-- ===== src/Signals/Caps.antt =====
-- The limits that the size of an order keeps.
use native.Mathlib.Nat.{div-add-mod', zero-div, zero-mod}
use intelligent_trading_syst.Base.{
  ℕ, ◌+◌, ◌-◌, ◌*◌, ◌/◌, ◌%◌, ◌≤◌, ◌<◌, ◌≡◌, refl, ap, ◌∙◌, Bool-cases, Bool, true, false, not, ◌⊎◌,
  inl, inr, List, Dict, ℤ, pos_part, is_pos, leb, arith, if◌then◌else◌,
}
use intelligent_trading_syst.Models.{Portfolio, Signal, portfolio_value}
use intelligent_trading_syst.Signals.Sizer.{
  PositionSizer, million, capped_by, max_notional, existing_notional, round_cents, net_of_fees,
  clamped_target, size_order, blend_win_rate, vol_target_notional,
}

rounded_lem :
    (q r cent target up : ℕ)
    → q * cent + r ≡ target
    → (up ≡ 0) ⊎ ((up ≡ 1) × (cent ≤ r * 2))
    → (q + up) * cent * 2 ≤ target * 2 + cent
rounded_lem q r cent target up h (inl e) = omega (arith, h, ap (λ (u : ℕ). (q + u) * cent) e)
rounded_lem q r cent target up h (inr (e, k)) =
    omega (arith, h, k, ap (λ (u : ℕ). (q + u) * cent) e)

-- Rounding moves an amount by half a cent at most.
round_bounded : (cent target : ℕ) → round_cents cent target * 2 ≤ target * 2 + cent
unfolding round_cents
round_bounded cent target =
    rounded_lem (target / cent) (target % cent) cent target _ (div-add-mod' target cent)
      (ground arith)

net_of_fees-bounded :
    (z : PositionSizer) (target : ℕ) → net_of_fees z target * 2 ≤ target * 2 + z.cent
unfolding net_of_fees
net_of_fees-bounded z target =
    let left = target - target * z.fee_rate * 2 / million in
    ground (arith, round_bounded z.cent left)

nothing : (a b : ℕ) → leb a b ≡ true → a - b ≡ 0
nothing a b e = ground arith

net_of_fees-zero : (z : PositionSizer) → 0 < z.cent → net_of_fees z 0 ≡ 0
unfolding net_of_fees round_cents
net_of_fees-zero z h = ground (arith, zero-div z.cent, zero-mod z.cent)

sized :
    (tradable : Bool) (z : PositionSizer) (target held bound : ℕ)
    → 0 < z.cent
    → target ≤ bound
    → let size = if not tradable then 0 else net_of_fees z (target - held) in
      (size ≡ 0) ⊎ ((held + size) * 2 ≤ bound * 2 + z.cent)
sized false z target held bound h k = inl refl
sized true z target held bound h k = elim (Bool-cases (leb target held)) [
  | inl e ↦ inl (ap (net_of_fees z) (nothing target held e) ∙ net_of_fees-zero z h)
  | inr e ↦ inr (ground (arith, net_of_fees-bounded z (target - held)))
]

-- The cap on the symbol, or the volatility target where it is lower.
abbrev pub limit : (List ℤ → ℕ) → PositionSizer → ℕ → ℕ
limit deviation z total = capped_by (vol_target_notional deviation z total) (max_notional z total)

clamped_target-le :
    (deviation : List ℤ → ℕ) (z : PositionSizer) (total : ℕ) (signal : Signal)
    (win_rate win_loss_ratio allocation reference : ℤ)
    → clamped_target deviation z total signal win_rate win_loss_ratio allocation reference
      ≤ limit deviation z total
unfolding clamped_target
clamped_target-le deviation z total signal win_rate win_loss_ratio allocation reference =
    ground arith

-- The size of an order, with what is already held on the signal's side, is at most the cap on the
-- symbol and the notional of the volatility target, up to half a cent of rounding, or there is no
-- order; whatever the signal, the allocation and the reference multiplier are.
pub size_order-bounded :
    (deviation : List ℤ → ℕ) (z : PositionSizer) (signal : Signal) (portfolio : Portfolio)
    (win_rate win_loss_ratio : ℤ) (rates : Dict ℤ) (allocation reference : ℤ)
    → 0 < z.cent
    → let size =
        size_order deviation z signal portfolio win_rate win_loss_ratio rates allocation
          reference in
      let total = pos_part (portfolio_value portfolio) in
      (size ≡ 0)
      ⊎ ((existing_notional signal portfolio.positions + size) * 2
          ≤ limit deviation z total * 2 + z.cent)
unfolding size_order
size_order-bounded deviation z signal portfolio win_rate win_loss_ratio rates allocation reference
      h =
    let total = pos_part (portfolio_value portfolio) in
    let actual = blend_win_rate signal.strategy_id win_rate rates in
    let target =
      clamped_target deviation z total signal actual win_loss_ratio allocation reference in
    let held = existing_notional signal portfolio.positions in
    sized (is_pos (portfolio_value portfolio)) z target held (limit deviation z total) h
      (clamped_target-le deviation z total signal actual win_loss_ratio allocation reference)
