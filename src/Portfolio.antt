-- ===== src/Portfolio.antt =====
-- The portfolio manager (quantflow/signal/portfolio.py): the book of positions, cash, realized
-- profit, the high-water mark and the drawdown. The pending ledger and the allocation weights of
-- the same class are `Portfolio.Pending` and `Portfolio.Allocation`.
pub mod Signs
pub mod Sums
pub mod Equity
pub mod Basis
pub mod Watermark
pub mod Pending
pub mod Allocation
pub mod Examples
use intelligent_trading_syst.Base.{
  ℕ, ◌+◌, Bool, true, false, ◌&&◌, Option, none, some, List, [], ◌∷◌, String, Dict, lookup, insert,
  erase, size, ℤ, pos, ◌+ℤ◌, ◌-ℤ◌, ◌*ℤ◌, abs, pos_part, ltb_ℤ, is_pos, is_neg, div_ℤ, max_ℤ, leb,
  ltb, ◌==◌, if◌then◌else◌, negsuc,
}
use intelligent_trading_syst.Models.{
  Position, Fraction, market_value, positions_value, with_current_price, position_epsilon,
}

-- `deque(maxlen=…)`, oldest first.
pub record ReturnHistory : Type 0 where
  pub maxlen : ℕ
  pub items : List ℤ

-- A reservation of `Portfolio.Pending`, reserved at a reading in milliseconds.
pub record PendingEntry : Type 0 where
  pub symbol : String
  pub notional : ℤ
  pub strategy_id : String
  pub reserved_at_ms : ℕ

-- Weights are in millionths. A `daily_baseline` of `none` is NaN, "not yet anchored".
pub record PortfolioManager : Type 0 where
  pub initial_capital : ℤ
  pub cash : ℤ
  pub positions : Dict Position
  pub peak_equity : ℤ
  pub current_drawdown : Fraction
  pub allocation : Dict ℤ
  pub realized_pnl : ℤ
  pub daily_baseline : Option ℤ
  pub pending : Dict PendingEntry
  pub strategy_returns : Dict ReturnHistory
  pub symbol_returns : Dict ReturnHistory
  pub symbol_allocation : Dict ℤ

unfoldable pub init : ℤ → PortfolioManager
init capital = record {
  initial_capital = capital;
  cash = capital;
  positions = [];
  peak_equity = capital;
  current_drawdown = record { num = pos 0; den = 1 };
  allocation = [];
  realized_pnl = pos 0;
  daily_baseline = none;
  pending = [];
  strategy_returns = [];
  symbol_returns = [];
  symbol_allocation = [];
}

unfoldable pub total_value : PortfolioManager → ℤ
total_value pm = pm.cash +ℤ positions_value pm.positions

-- `_refresh_drawdown`: the mark rises first, and the drawdown is (total - peak) / peak.
unfoldable pub refresh_drawdown : PortfolioManager → PortfolioManager
refresh_drawdown pm =
    let total = total_value pm in
    let peak = if ltb_ℤ pm.peak_equity total then total else pm.peak_equity in
    record pm {
      peak_equity = peak;
      current_drawdown =
          if is_pos peak
          then record { num = total -ℤ peak; den = pos_part peak }
          else pm.current_drawdown;
    }

abbrev pub is_flat : ℤ → Bool
is_flat quantity = ltb (abs quantity) position_epsilon

unfoldable pub has_position : String → PortfolioManager → Bool
has_position symbol pm = elim (lookup symbol pm.positions) [
  | none ↦ false
  | some p ↦ ltb position_epsilon (abs p.quantity)
]

unfoldable pub set_position : String → Position → PortfolioManager → PortfolioManager
set_position symbol p pm = refresh_drawdown (record pm { positions = insert symbol p pm.positions })

-- The position that a first fill opens.
unfoldable pub open_position : String → ℤ → ℤ → String → Position
open_position symbol delta price strategy_id = record {
  symbol = symbol;
  quantity = delta;
  entry_price = price;
  current_price = price;
  unrealized_pnl = pos 0;
  strategy_id = strategy_id;
}

-- `min(abs(quantity_delta), abs(existing.quantity))`
unfoldable pub closing_quantity : Position → ℤ → ℕ
closing_quantity p delta = if leb (abs delta) (abs p.quantity) then abs delta else abs p.quantity

unfoldable pub leg_sign : Position → ℤ
leg_sign p = if is_pos p.quantity then pos 1 else negsuc 0

-- Realized profit of the part of the leg that an opposing fill closes.
unfoldable pub realized_by : Position → ℤ → ℤ → ℤ
realized_by p delta price =
    if is_neg (p.quantity *ℤ delta)
    then (price -ℤ p.entry_price) *ℤ pos (closing_quantity p delta) *ℤ leg_sign p
    else pos 0

-- The entry price after a fill that leaves `new_qty`: a weighted average when the fill adds.
unfoldable pub average_price : Position → ℤ → ℤ → ℤ → ℤ
average_price p delta price new_qty =
    if is_pos (p.quantity *ℤ delta)
    then div_ℤ (p.entry_price *ℤ pos (abs p.quantity) +ℤ price *ℤ pos (abs delta)) (abs new_qty)
    else if is_neg (p.quantity *ℤ new_qty)
    then price
    else p.entry_price

unfoldable pub merged_position : String → Position → ℤ → ℤ → String → Position
merged_position symbol p delta price strategy_id =
    let new_qty = p.quantity +ℤ delta in
    let average = average_price p delta price new_qty in
    record {
      symbol = symbol;
      quantity = new_qty;
      entry_price = average;
      current_price = price;
      unrealized_pnl = (price -ℤ average) *ℤ new_qty;
      strategy_id = if p.strategy_id == "" then strategy_id else p.strategy_id;
    }

-- `update_position` past the cash movement, for a symbol that is held.
unfoldable pub apply_fill : String → Position → ℤ → ℤ → String → PortfolioManager → PortfolioManager
apply_fill symbol p delta price strategy_id pm = record pm {
  realized_pnl = pm.realized_pnl +ℤ realized_by p delta price;
  positions =
      if is_flat (p.quantity +ℤ delta)
      then erase symbol pm.positions
      else insert symbol (merged_position symbol p delta price strategy_id) pm.positions;
}

-- Cash follows the notional, and the fee always lowers it (`if fee:` skips a zero fee).
unfoldable pub pay : ℤ → ℤ → ℤ → PortfolioManager → PortfolioManager
pay delta price fee pm = record pm { cash = pm.cash -ℤ delta *ℤ price -ℤ fee }

unfoldable pub update_position : String → ℤ → ℤ → ℤ → String → PortfolioManager → PortfolioManager
update_position symbol delta price fee strategy_id pm = elim (lookup symbol pm.positions) [
  | none ↦
      if is_flat delta
      then refresh_drawdown pm
      else let paid = pay delta price fee pm in
        refresh_drawdown (record paid {
          positions = insert symbol (open_position symbol delta price strategy_id) paid.positions;
        })
  | some p ↦
      if is_flat delta
      then refresh_drawdown
          (record pm { positions = insert symbol (with_current_price p price) pm.positions })
      else refresh_drawdown (apply_fill symbol p delta price strategy_id (pay delta price fee pm))
]

-- One entry of the loop of `update_market_prices`.
unfoldable pub mark : String → ℤ → Dict Position → Dict Position
mark symbol price positions = elim (lookup symbol positions) [
  | none ↦ positions
  | some p ↦ insert symbol (with_current_price p price) positions
]

unfoldable pub mark_all : Dict ℤ → Dict Position → Dict Position
unfolding mark
mark_all [] positions = positions
mark_all ((symbol, price) ∷ prices) positions = mark_all prices (mark symbol price positions)

unfoldable pub update_market_prices : Dict ℤ → PortfolioManager → PortfolioManager
unfolding mark_all
update_market_prices prices pm = record pm { positions = mark_all prices pm.positions }

unfoldable pub mark_to_market : Dict ℤ → PortfolioManager → PortfolioManager
mark_to_market prices pm = refresh_drawdown (update_market_prices prices pm)

unfoldable pub update_cash : ℤ → PortfolioManager → PortfolioManager
update_cash amount pm = refresh_drawdown (record pm { cash = pm.cash +ℤ amount })

unfoldable pub set_capital_baseline : ℤ → PortfolioManager → PortfolioManager
unfolding max_ℤ
set_capital_baseline capital pm = record pm {
  initial_capital = capital;
  peak_equity = max_ℤ capital (total_value pm);
  current_drawdown = record { num = pos 0; den = 1 };
}

unfoldable pub set_daily_baseline : Option ℤ → PortfolioManager → PortfolioManager
set_daily_baseline baseline pm = record pm { daily_baseline = baseline }

-- `check_drawdown`, against a limit in millionths: num / den > limit / 1000000.
unfoldable pub check_drawdown : ℤ → PortfolioManager → Bool
check_drawdown max_drawdown pm =
    ltb_ℤ (max_drawdown *ℤ pos pm.current_drawdown.den) (pm.current_drawdown.num *ℤ pos 1000000)
