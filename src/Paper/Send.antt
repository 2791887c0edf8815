-- ===== src/Paper/Send.antt =====
-- `send_order` of the paper gateway (quantflow/execution/paper_gateway.py).
use intelligent_trading_syst.Base.{
  ℕ, ◌+◌, ◌-◌, Bool, not, ◌&&◌, Option, none, some, String, contains, insert, ℤ, pos, ◌*ℤ◌, neg_ℤ,
  abs, is_pos, is_neg, div_ℤ, ltb, ltb_ℤ, ◌==◌, str_append, show, if◌then◌else◌,
}
use intelligent_trading_syst.Models.{OrderSide, buy, sell, Order, OrderStatus, is_flag_set}
use intelligent_trading_syst.Validators.{is_valid_symbol}
use intelligent_trading_syst.Portfolio.{is_flat}
use intelligent_trading_syst.Paper.State.{unit_rate, PaperGateway, bbo_stale, resolve_fill_price}
use intelligent_trading_syst.Paper.Positions.{update_position, held_quantity}

-- `min(quantity, abs(held))` where the order is against the position.
unfoldable pub capped_quantity : OrderSide → ℤ → ℤ → ℤ
capped_quantity buy held quantity =
    if is_neg held && ltb_ℤ (pos (abs held)) quantity then pos (abs held) else quantity
capped_quantity sell held quantity = if is_pos held && ltb_ℤ held quantity then held else quantity

abbrev slip : OrderSide → ℕ → ℤ → ℤ
slip buy rate price = div_ℤ (price *ℤ pos (unit_rate + rate)) unit_rate
slip sell rate price = div_ℤ (price *ℤ pos (unit_rate - rate)) unit_rate

unfoldable pub slipped_price : String → OrderSide → ℤ → PaperGateway → ℤ
slipped_price symbol side price gw =
    if gw.orderbook_fill_enabled && contains symbol gw.bbo
    then if ltb 0 gw.orderbook_extra_slip then slip side gw.orderbook_extra_slip price else price
    else slip side gw.slippage price

abbrev pub signed : OrderSide → ℤ → ℤ
signed buy quantity = quantity
signed sell quantity = neg_ℤ quantity

-- `notional * self._taker_fee`
unfoldable pub fee_of : ℤ → PaperGateway → ℤ
fee_of notional gw = div_ℤ (notional *ℤ pos gw.taker_fee) unit_rate

-- The ratio of a simulated partial fill, for limit orders only.
abbrev pub partial_ratio : Order → PaperGateway → Option ℕ
partial_ratio order gw = if order.order_type == "limit" then gw.partial_fill_ratio else none

-- The status, the quantity and the fee that the order reports.
unfoldable pub stamp_fill : String → Order → ℤ → ℤ → PaperGateway → Order
stamp_fill oid order quantity price gw = elim (partial_ratio order gw) [
  | none ↦ record order {
    order_id = oid;
    status = OrderStatus.filled;
    filled_quantity = quantity;
    filled_price = price;
    fee = fee_of (price *ℤ quantity) gw;
  }
  | some ratio ↦
      let part = div_ℤ (quantity *ℤ pos ratio) unit_rate in
      record order {
        order_id = oid;
        status = OrderStatus.partial;
        filled_quantity = part;
        filled_price = price;
        fee = fee_of (part *ℤ price) gw;
      }
]

-- The end of `send_order`: slippage, the local position view, the price and the stamps.
unfoldable pub fill_order : String → Order → ℤ → ℤ → PaperGateway → PaperGateway × Order
unfolding slipped_price
fill_order oid order quantity price gw =
    let fill_price = slipped_price order.symbol order.side price gw in
    (
      record gw {
        positions =
            update_position order.symbol (signed order.side quantity) fill_price order.strategy_id
              gw.positions;
        prices = insert order.symbol fill_price gw.prices;
      },
      stamp_fill oid order quantity fill_price gw,
    )

abbrev pub reject : String → Order → Order
reject oid order = record order { status = OrderStatus.rejected; order_id = oid }

abbrev pub is_reduce_only : Order → Bool
is_reduce_only order = is_flag_set "reduceOnly" order.params

-- `send_order` once the order is valid and has its id.
unfoldable pub send_valid : String → ℕ → Order → PaperGateway → PaperGateway × Order
unfolding resolve_fill_price capped_quantity
send_valid oid now order gw =
    let price = resolve_fill_price order.symbol order.side order.price gw in
    let held = held_quantity order.symbol gw.positions in
    if not (is_pos price)
    then (gw, reject oid order)
    else if gw.orderbook_fill_enabled && bbo_stale order.symbol now gw
    then (gw, reject oid order)
    else if is_reduce_only order && is_flat held
    then (gw, reject oid order)
    else fill_order oid order
        (if is_reduce_only order
          then capped_quantity order.side held order.quantity
          else order.quantity)
        price gw

-- The order gets the next number.
unfoldable pub send_numbered : ℕ → ℕ → Order → PaperGateway → PaperGateway × Order
send_numbered n now order gw =
    send_valid (str_append "paper-" (show n)) now order (record gw { order_counter = n })

-- `none` is the ValueError of the validation, which comes before anything changes.
unfoldable pub send_order : ℕ → Order → PaperGateway → Option (PaperGateway × Order)
unfolding send_numbered
send_order now order gw =
    if is_pos order.quantity && is_valid_symbol order.symbol
    then some (send_numbered (gw.order_counter + 1) now order gw)
    else none
