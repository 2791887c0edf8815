-- ===== src/Models.antt =====
-- Data models shared by every layer (quantflow/common/models.py).
-- Floats are whole numbers of a unit: quantities in lots of 1e-10 (so `POSITION_EPSILON` is one
-- lot), prices in ticks of 1e-8, and money in lot-ticks, the unit of quantity times price.
pub mod Strategies
use intelligent_trading_syst.Base.{
  ℕ, Bool, true, false, Option, none, some, [], ◌∷◌, String, Dict, lookup, ℤ, pos, ◌-ℤ◌, ◌+ℤ◌, ◌*ℤ◌,
  is_pos, is_neg, if◌then◌else◌,
}

pub data Direction : Type 0 where
  long flat short : Direction

pub data OrderSide : Type 0 where
  buy sell : OrderSide

pub data OrderStatus : Type 0 where
  created submitted accepted partial filled cancelled rejected expired : OrderStatus

-- `POSITION_EPSILON`, 1e-10, is one lot.
abbrev pub position_epsilon : ℕ
position_epsilon = 1

-- The same number, 1e-10, as an amount of money.
abbrev pub money_epsilon : ℕ
money_epsilon = 100000000

-- `params`, which the program reads only for flags such as "reduceOnly".
abbrev pub Params : Type 0
Params = Dict Bool

-- `params.get(key)` as a truth value.
abbrev pub is_flag_set : String → Params → Bool
is_flag_set key params = elim (lookup key params) [ none ↦ false | some flag ↦ flag ]

pub record Position : Type 0 where
  pub symbol : String
  pub quantity : ℤ
  pub entry_price : ℤ
  pub current_price : ℤ
  pub unrealized_pnl : ℤ
  pub strategy_id : String

unfoldable pub market_value : Position → ℤ
market_value p = p.quantity *ℤ p.current_price

unfoldable pub position_side : Position → Direction
position_side p =
    if is_pos p.quantity
    then Direction.long
    else if is_neg p.quantity
    then Direction.short
    else Direction.flat

unfoldable pub with_current_price : Position → ℤ → Position
with_current_price p price = record {
  symbol = p.symbol;
  quantity = p.quantity;
  entry_price = p.entry_price;
  current_price = price;
  unrealized_pnl = (price -ℤ p.entry_price) *ℤ p.quantity;
  strategy_id = p.strategy_id;
}

pub record OrderRequest : Type 0 where
  pub symbol : String
  pub side : OrderSide
  pub order_type : String
  pub quantity : ℤ
  pub price : Option ℤ
  pub strategy_id : String
  pub params : Params

pub record Order : Type 0 where
  pub order_id : String
  pub symbol : String
  pub side : OrderSide
  pub order_type : String
  pub quantity : ℤ
  pub price : Option ℤ
  pub status : OrderStatus
  pub filled_quantity : ℤ
  pub filled_price : ℤ
  pub fee : ℤ
  pub strategy_id : String
  pub created_at : ℕ
  pub applied_filled_qty : ℤ
  pub params : Params

pub record OrderResult : Type 0 where
  pub order_id : String
  pub status : OrderStatus
  pub symbol : String
  pub side : OrderSide
  pub filled_quantity : ℤ
  pub average_price : ℤ
  pub fee : ℤ
  pub error : String

-- A ratio of two amounts, compared by cross-multiplication.
pub record Fraction : Type 0 where
  pub num : ℤ
  pub den : ℕ

-- The snapshot that risk checks read. A `daily_baseline` of `none` is NaN, not yet anchored.
pub record Portfolio : Type 0 where
  pub cash : ℤ
  pub positions : Dict Position
  pub current_drawdown : Fraction
  pub realized_pnl : ℤ
  pub daily_baseline : Option ℤ
  pub pending_exposure : ℤ

-- `sum(p.market_value for p in positions.values())`
unfoldable pub positions_value : Dict Position → ℤ
positions_value [] = pos 0
positions_value ((k, p) ∷ d) = market_value p +ℤ positions_value d

unfoldable pub portfolio_value : Portfolio → ℤ
unfolding positions_value
portfolio_value p = p.cash +ℤ positions_value p.positions

pub record Signal : Type 0 where
  pub symbol : String
  pub direction : Direction
  pub strength : ℤ
  pub price : ℤ
  pub strategy_id : String
  pub timestamp : ℕ

pub record RiskDecision : Type 0 where
  pub passed : Bool
  pub reason : String

-- FILLED, CANCELLED and REJECTED, the states that the order manager treats as final.
abbrev pub is_terminal : OrderStatus → Bool
is_terminal OrderStatus.filled = true
is_terminal OrderStatus.cancelled = true
is_terminal OrderStatus.rejected = true
is_terminal _ = false

-- CREATED, SUBMITTED, ACCEPTED and PARTIAL.
abbrev pub is_open : OrderStatus → Bool
is_open OrderStatus.created = true
is_open OrderStatus.submitted = true
is_open OrderStatus.accepted = true
is_open OrderStatus.partial = true
is_open _ = false
