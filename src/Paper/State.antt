-- ===== src/Paper/State.antt =====
-- The paper gateway's state, its configuration and its feed (quantflow/execution/paper_gateway.py).
-- Rates are in millionths and clock readings in milliseconds.
use intelligent_trading_syst.Base.{
  ℕ, ◌+◌, Bool, true, false, not, ◌||◌, Option, none, some, List, [], String, Dict, lookup,
  contains, insert, values, ℤ, pos, ◌+ℤ◌, abs, is_pos, is_neg, div_ℤ, leb, ltb, leb_ℤ, ltb_ℤ,
  if◌then◌else◌,
}
use intelligent_trading_syst.Models.{OrderSide, buy, sell, Position, with_current_price}

abbrev pub unit_rate : ℕ
unit_rate = 1000000

pub record PaperGateway : Type 0 where
  pub slippage : ℕ
  pub taker_fee : ℕ
  pub partial_fill_ratio : Option ℕ
  pub orderbook_fill_enabled : Bool
  pub orderbook_extra_slip : ℕ
  pub bbo_max_age : ℕ
  pub positions : Dict Position
  pub order_counter : ℕ
  pub prices : Dict ℤ
  pub bbo : Dict (ℤ × ℤ)
  pub bbo_ts : Dict ℕ

-- `max(0.0, min(rate, cap))` on a rate from the configuration.
unfoldable pub clamp_rate : ℕ → ℕ → ℤ → ℕ
clamp_rate low cap rate =
    if leb_ℤ rate (pos low) then low else if leb_ℤ (pos cap) rate then cap else abs rate

-- The values of the configuration, with the constructor's defaults put in for what is missing.
pub record PaperConfig : Type 0 where
  pub slippage : ℤ
  pub taker_fee : ℤ
  pub partial_fill_ratio : Option ℤ
  pub orderbook_fill_enabled : Bool
  pub extra_slippage : ℤ
  pub bbo_max_age : ℤ

unfoldable pub init : PaperConfig → PaperGateway
unfolding clamp_rate
init cfg = record {
  slippage = clamp_rate 0 500000 cfg.slippage;
  taker_fee = if is_neg cfg.taker_fee then 0 else abs cfg.taker_fee;
  partial_fill_ratio = elim cfg.partial_fill_ratio [
    | none ↦ none
    | some ratio ↦ some (clamp_rate 10000 990000 ratio)
  ];
  orderbook_fill_enabled = cfg.orderbook_fill_enabled;
  orderbook_extra_slip = clamp_rate 0 500000 cfg.extra_slippage;
  bbo_max_age = if is_neg cfg.bbo_max_age then 0 else abs cfg.bbo_max_age;
  positions = [];
  order_counter = 0;
  prices = [];
  bbo = [];
  bbo_ts = [];
}

unfoldable pub connect : PaperGateway → PaperGateway
connect gw = record gw { positions = [] }

unfoldable pub query_positions : PaperGateway → List Position
query_positions gw = values gw.positions

unfoldable pub update_market_price : String → ℤ → PaperGateway → PaperGateway
update_market_price symbol price gw = record gw {
  prices = insert symbol price gw.prices;
  positions = elim (lookup symbol gw.positions) [
    | none ↦ gw.positions
    | some p ↦ insert symbol (with_current_price p price) gw.positions
  ];
}

-- `update_orderbook` past its check of the book.
unfoldable pub touch_book : String → ℤ → ℤ → Bool → ℕ → PaperGateway → PaperGateway
touch_book symbol bid ask mid_to_last now gw =
    let touched = record gw {
      bbo = insert symbol (bid, ask) gw.bbo;
      bbo_ts = insert symbol now gw.bbo_ts;
    } in
    if mid_to_last then update_market_price symbol (div_ℤ (bid +ℤ ask) 2) touched else touched

unfoldable pub update_orderbook : String → ℤ → ℤ → Bool → ℕ → PaperGateway → PaperGateway
unfolding touch_book
update_orderbook symbol bid ask mid_to_last now gw =
    if not (is_pos bid) || not (is_pos ask) || ltb_ℤ ask bid
    then gw
    else touch_book symbol bid ask mid_to_last now gw

unfoldable pub bbo_stale : String → ℕ → PaperGateway → Bool
bbo_stale symbol now gw =
    if not gw.orderbook_fill_enabled || leb gw.bbo_max_age 0
    then false
    else if not (contains symbol gw.bbo)
    then true
    else elim (lookup symbol gw.bbo_ts) [
      | none ↦ ltb gw.bbo_max_age now
      | some ts ↦ ltb (ts + gw.bbo_max_age) now
    ]

-- The order's own price if it has a positive one, else the last known price, else 0.
unfoldable pub last_price : String → Option ℤ → PaperGateway → ℤ
last_price symbol order_price gw =
    let known : ℤ = elim (lookup symbol gw.prices) [ none ↦ pos 0 | some price ↦ price ] in
    elim order_price [ none ↦ known | some price ↦ if is_pos price then price else known ]

unfoldable pub resolve_fill_price : String → OrderSide → Option ℤ → PaperGateway → ℤ
unfolding last_price
resolve_fill_price symbol side order_price gw =
    if gw.orderbook_fill_enabled
    then elim (lookup symbol gw.bbo) [
      | none ↦ last_price symbol order_price gw
      | some (bid, ask) ↦ elim side [ buy ↦ ask | sell ↦ bid ]
    ]
    else last_price symbol order_price gw
