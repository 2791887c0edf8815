-- ===== src/Portfolio/Basis.antt =====
-- Realized profit: what a fill that reduces, closes or flips a position takes to `realized_pnl`.
use intelligent_trading_syst.Base.{
  weigh, weigh-insert_held, weigh-erase, ◌⊎◌, ℕ, ◌<◌, ◌≡◌, refl, Bool, true, false, ◌&&◌, ◌||◌,
  some, String, lookup, Distinct, ℤ, pos, ◌+ℤ◌, ◌-ℤ◌, ◌*ℤ◌, neg_ℤ, abs, is_pos, is_neg, leb,
  int_laws, arith, *ℤ-distrib_right, *ℤ-distrib_sub, *ℤ-neg_right, *ℤ-zero_left, *ℤ-one,
  *ℤ-minus_one, if◌then◌else◌, Bool-cases, inl, inr, ap,
}
use intelligent_trading_syst.Models.{Position}
use intelligent_trading_syst.Portfolio.{
  PortfolioManager, refresh_drawdown, is_flat, merged_position, average_price, realized_by,
  closing_quantity, leg_sign, apply_fill, pay, update_position,
}
use intelligent_trading_syst.Portfolio.Signs.{is_neg-*, is_pos-*}
use intelligent_trading_syst.Portfolio.Equity.{update_position-trade}

-- The signs differ: the fill works against the leg.
abbrev pub is_opposing : ℤ → ℤ → Bool
is_opposing q delta = is_pos q && is_neg delta || is_neg q && is_pos delta

-- The signed part of the leg that an opposing fill closes.
abbrev closed_part : ℤ → ℤ → ℤ
closed_part q delta = if leb (abs delta) (abs q) then neg_ℤ delta else q

compare_cases : (a b : ℕ) → (a < b) ⊎ (a ≡ b) ⊎ (b < a)
compare_cases a b = grind arith

closing_long :
    (p : Position) (delta : ℤ)
    → is_opposing p.quantity delta ≡ true
    → is_pos p.quantity ≡ true
    → pos (closing_quantity p delta) ≡ closed_part p.quantity delta
unfolding closing_quantity neg_ℤ
closing_long p delta opposing long = ground arith

closing_short :
    (p : Position) (delta : ℤ)
    → is_opposing p.quantity delta ≡ true
    → is_pos p.quantity ≡ false
    → neg_ℤ (pos (closing_quantity p delta)) ≡ closed_part p.quantity delta
unfolding closing_quantity neg_ℤ
closing_short p delta opposing short = ground arith

signed_close :
    (x : ℤ) (p : Position) (delta : ℤ)
    → is_opposing p.quantity delta ≡ true
    → x *ℤ pos (closing_quantity p delta) *ℤ leg_sign p ≡ x *ℤ closed_part p.quantity delta
unfolding leg_sign
signed_close x p delta opposing = elim (Bool-cases (is_pos p.quantity)) [
  | inl long ↦ rw (long, *ℤ-one) (ap (◌*ℤ◌ x) (closing_long p delta opposing long))
  | inr short ↦
      rw (short, *ℤ-minus_one, ← *ℤ-neg_right) (ap (◌*ℤ◌ x) (closing_short p delta opposing short))
]

realized_by-closed :
    (p : Position) (delta price : ℤ)
    → is_opposing p.quantity delta ≡ true
    → realized_by p delta price ≡ (price -ℤ p.entry_price) *ℤ closed_part p.quantity delta
unfolding realized_by
realized_by-closed p delta price opposing =
    rw (is_neg-*, opposing) (signed_close (price -ℤ p.entry_price) p delta opposing)

abbrev pub cost : Position → ℤ
cost p = p.quantity *ℤ p.entry_price

-- The cost of what an opposing fill leaves.
abbrev left_cost : Position → ℤ → ℤ → ℤ
left_cost p delta price =
    let new_qty = p.quantity +ℤ delta in
    if is_flat new_qty then pos 0 else new_qty *ℤ average_price p delta price new_qty

average-opposing :
    (p : Position) (delta price : ℤ)
    → is_opposing p.quantity delta ≡ true
    → average_price p delta price (p.quantity +ℤ delta)
      ≡ (if is_opposing p.quantity (p.quantity +ℤ delta) then price else p.entry_price)
unfolding average_price
average-opposing p delta price opposing =
    ground (arith, is_pos-* p.quantity delta, is_neg-* p.quantity (p.quantity +ℤ delta))

close_algebra :
    (q e delta price : ℤ)
    → (q +ℤ delta) *ℤ e -ℤ q *ℤ e -ℤ delta *ℤ price ≡ (price -ℤ e) *ℤ neg_ℤ delta
close_algebra q e delta price = rw (*ℤ-distrib_right, *ℤ-neg_right, *ℤ-distrib_sub) (omega int_laws)

flip_algebra :
    (q e delta price : ℤ) → (q +ℤ delta) *ℤ price -ℤ q *ℤ e -ℤ delta *ℤ price ≡ (price -ℤ e) *ℤ q
flip_algebra q e delta price = rw (*ℤ-distrib_right, *ℤ-distrib_sub) (omega int_laws)

-- A fill against the leg reduces it, closes it or flips it.
data Outcome (q delta : ℤ) : Type 0 where
  reduced :
      is_flat (q +ℤ delta) ≡ false
      → is_opposing q (q +ℤ delta) ≡ false
      → closed_part q delta ≡ neg_ℤ delta
      → Outcome q delta
  closed : q +ℤ delta ≡ pos 0 → closed_part q delta ≡ neg_ℤ delta → Outcome q delta
  flipped :
      is_flat (q +ℤ delta) ≡ false
      → is_opposing q (q +ℤ delta) ≡ true
      → closed_part q delta ≡ q
      → Outcome q delta

outcome : (q delta : ℤ) → is_opposing q delta ≡ true → Outcome q delta
unfolding ◌+ℤ◌
outcome q delta opposing = elim (compare_cases (abs delta) (abs q)) [
  | inl less ↦ reduced (ground arith) (ground arith) (ground arith)
  | inr (inl same) ↦ closed (ground arith) (ground arith)
  | inr (inr more) ↦ flipped (ground arith) (ground arith) (ground arith)
]

-- What the close leaves and pays, against the profit that it books.
left_cost-realized :
    (p : Position) (delta price : ℤ)
    → is_opposing p.quantity delta ≡ true
    → left_cost p delta price -ℤ cost p -ℤ delta *ℤ price ≡ realized_by p delta price
left_cost-realized p delta price opposing =
    rw (realized_by-closed p delta price opposing, average-opposing p delta price opposing)
      (go (outcome p.quantity delta opposing))
  where
    open p use {quantity as q, entry_price as e}

    go :
        Outcome q delta
        → (if is_flat (q +ℤ delta)
              then pos 0
              else (q +ℤ delta) *ℤ (if is_opposing q (q +ℤ delta) then price else e))
            -ℤ q *ℤ e
            -ℤ delta *ℤ price
          ≡ (price -ℤ e) *ℤ closed_part q delta
    go (reduced kept same part) = rw (kept, same, part) (close_algebra q e delta price)
    go (closed none_left part) =
        rw (part, none_left) (rw (← close_algebra q e delta price, none_left, *ℤ-zero_left))
    go (flipped kept turned part) = rw (kept, turned, part) (flip_algebra q e delta price)

merged-cost :
    (symbol : String) (p : Position) (delta price : ℤ) (sid : String)
    → cost (merged_position symbol p delta price sid)
      ≡ (p.quantity +ℤ delta) *ℤ average_price p delta price (p.quantity +ℤ delta)
unfolding merged_position
merged-cost symbol p delta price sid = refl

apply_fill-cost :
    (symbol : String) (p : Position) (delta price : ℤ) (sid : String) (pm : PortfolioManager)
    → Distinct pm.positions
    → lookup symbol pm.positions ≡ some p
    → weigh cost (apply_fill symbol p delta price sid pm).positions +ℤ cost p
      ≡ weigh cost pm.positions +ℤ left_cost p delta price
unfolding apply_fill
apply_fill-cost symbol p delta price sid pm d held = grind (
  int_laws,
  merged-cost symbol p delta price sid,
  weigh-erase cost symbol p pm.positions d held,
  weigh-insert_held cost symbol (merged_position symbol p delta price sid) p pm.positions held,
)

-- Cash and the cost of what is held, less the profit realized so far.
abbrev pub basis : PortfolioManager → ℤ
basis pm = pm.cash +ℤ weigh cost pm.positions -ℤ pm.realized_pnl

fill-basis :
    (symbol : String) (p : Position) (delta price fee : ℤ) (sid : String) (pm : PortfolioManager)
    → Distinct pm.positions
    → lookup symbol pm.positions ≡ some p
    → is_opposing p.quantity delta ≡ true
    → basis (apply_fill symbol p delta price sid (pay delta price fee pm)) +ℤ fee ≡ basis pm
unfolding apply_fill pay
fill-basis symbol p delta price fee sid pm d held opposing = grind (
  int_laws,
  apply_fill-cost symbol p delta price sid (pay delta price fee pm) d held,
  left_cost-realized p delta price opposing,
)

-- A fill against a held position, one that reduces, closes or flips it, realizes exactly the
-- profit that it takes out of the position: cash plus the cost of the holdings, less the realized
-- profit, falls by the fee and by nothing else.
pub realized_exact :
    (symbol : String) (p : Position) (delta price fee : ℤ) (sid : String) (pm : PortfolioManager)
    → Distinct pm.positions
    → lookup symbol pm.positions ≡ some p
    → is_flat delta ≡ false
    → is_opposing p.quantity delta ≡ true
    → basis (update_position symbol delta price fee sid pm) +ℤ fee ≡ basis pm
unfolding refresh_drawdown
realized_exact symbol p delta price fee sid pm d held sized opposing =
    rw (update_position-trade symbol delta price fee sid p pm held sized)
      (fill-basis symbol p delta price fee sid pm d held opposing)
