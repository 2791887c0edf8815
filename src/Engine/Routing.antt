-- ===== src/Engine/Routing.antt =====
-- The order router (quantflow/execution/order_router.py) and the position manager
-- (quantflow/execution/position_manager.py), a thin delegate over the portfolio manager.
use intelligent_trading_syst.Base.{
  Bool, true, false, not, Option, none, some, [], ◌∷◌, String, lookup, ℤ, pos, neg_ℤ, abs, is_pos,
  if◌then◌else◌,
}
use intelligent_trading_syst.Models.{buy, sell, Order, OrderRequest, OrderStatus, Position}
use intelligent_trading_syst.Portfolio.{
  PortfolioManager, is_flat, update_position, update_market_prices,
}

unfoldable pub build_order : OrderRequest → Order
build_order request = record {
  order_id = "";
  symbol = request.symbol;
  side = request.side;
  order_type = request.order_type;
  quantity = request.quantity;
  price = request.price;
  status = OrderStatus.created;
  filled_quantity = pos 0;
  filled_price = pos 0;
  fee = pos 0;
  strategy_id = request.strategy_id;
  created_at = 0;
  applied_filled_qty = pos 0;
  params = request.params;
}

unfoldable pub build_close_request : Position → OrderRequest
build_close_request p = record {
  symbol = p.symbol;
  side = if is_pos p.quantity then sell else buy;
  order_type = "market";
  quantity = pos (abs p.quantity);
  price = none;
  strategy_id = "close_position";
  params = ("reduceOnly", true) ∷ [];
}

unfoldable pub is_closeable : Option Position → Bool
is_closeable none = false
is_closeable (some p) = not (is_flat p.quantity)

-- `PositionManager.update_market_price`
unfoldable pub mark_position : String → ℤ → PortfolioManager → PortfolioManager
mark_position symbol price pm = update_market_prices ((symbol, price) ∷ []) pm

-- `PositionManager.close_position`: the opposing fill at the last mark, without a fee.
unfoldable pub flatten_position : String → PortfolioManager → PortfolioManager × Option Position
flatten_position symbol pm = elim (lookup symbol pm.positions) [
  | none ↦ (pm, none)
  | some p ↦ (
    update_position symbol (neg_ℤ p.quantity)
        (if is_pos p.current_price then p.current_price else p.entry_price) (pos 0) "" pm,
    some p,
  )
]
