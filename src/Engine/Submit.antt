-- ===== src/Engine/Submit.antt =====
-- `submit` and `_handle_fill` of the execution engine (quantflow/execution/engine.py).
-- The latency readings and the log are output. `events` and the two counters have the newest
-- entry first; an engine without an event bus has `event_bus` false.
use intelligent_trading_syst.Base.{
  ℕ, Bool, true, false, Option, none, some, List, [], ◌∷◌, String, lookup, insert, ℤ, pos, ◌-ℤ◌,
  ltb_ℤ, if◌then◌else◌,
}
use intelligent_trading_syst.Models.{
  OrderSide, Order, OrderRequest, OrderResult, OrderStatus, position_epsilon,
}
use intelligent_trading_syst.Orders
use intelligent_trading_syst.Orders.{OrderManager}
use intelligent_trading_syst.Portfolio
use intelligent_trading_syst.Portfolio.{PortfolioManager}
use intelligent_trading_syst.Paper.Send.{signed}
use intelligent_trading_syst.Gateways.{GatewayBase}
use intelligent_trading_syst.Kill.Switch.{KillSwitch}
use intelligent_trading_syst.Engine.Routing.{build_order}

pub data Event : Type 0 where
  order_event : String → String → OrderSide → OrderStatus → Event
  fill_event : String → String → OrderSide → ℤ → ℤ → Event

-- The labels of the order counters: symbol, side and strategy.
abbrev pub Labels : Type 0
Labels = String × (OrderSide × String)

pub record Engine (G : Type 0) : Type 0 where
  pub gateway : Option G
  pub kill_switch : Option KillSwitch
  pub order_mgr : OrderManager
  pub portfolio : PortfolioManager
  pub event_bus : Bool
  pub events : List Event
  pub order_total : List Labels
  pub orders_filled : List Labels

abbrev pub labels : Order → Labels
labels order = (order.symbol, (order.side, order.strategy_id))

-- `POSITION_EPSILON` is one lot.
abbrev pub is_more : ℤ → Bool
is_more delta = ltb_ℤ (pos position_epsilon) delta

abbrev pub is_kill_active : Option KillSwitch → Bool
is_kill_active none = false
is_kill_active (some ks) = ks.active

-- FILLED, PARTIAL and REJECTED of a gateway survive; anything else becomes SUBMITTED.
unfoldable pub settle_status : OrderStatus → OrderStatus
settle_status OrderStatus.filled = OrderStatus.filled
settle_status OrderStatus.partial = OrderStatus.partial
settle_status OrderStatus.rejected = OrderStatus.rejected
settle_status _ = OrderStatus.submitted

abbrev pub is_filled : OrderStatus → Bool
is_filled OrderStatus.filled = true
is_filled _ = false

abbrev pub has_fill : OrderStatus → Bool
has_fill OrderStatus.filled = true
has_fill OrderStatus.partial = true
has_fill _ = false

unfoldable pub request_of : Order → OrderRequest
request_of order = record {
  symbol = order.symbol;
  side = order.side;
  order_type = order.order_type;
  quantity = order.quantity;
  price = order.price;
  strategy_id = order.strategy_id;
  params = [];
}

unfoldable pub result_of : Order → OrderResult
result_of order = record {
  order_id = order.order_id;
  status = order.status;
  symbol = order.symbol;
  side = order.side;
  filled_quantity = order.filled_quantity;
  average_price = order.filled_price;
  fee = order.fee;
  error = "";
}

-- Filled so far and not yet applied to the book.
unfoldable pub delta_filled : Order → ℤ
delta_filled order = order.filled_quantity -ℤ order.applied_filled_qty

-- The order once its fill has reached the book.
unfoldable pub applied_order : Order → Order
applied_order order =
    if is_more (delta_filled order)
    then record order { applied_filled_qty = order.filled_quantity }
    else order

-- The book takes the part of the cumulative fill that it has not had.
unfoldable pub book_fill : Order → PortfolioManager → PortfolioManager
book_fill order pm =
    if is_more (delta_filled order)
    then Portfolio.update_position order.symbol (signed order.side (delta_filled order))
        order.filled_price order.fee order.strategy_id pm
    else pm

unfoldable pub publish : {G : Type 0} → Event → Engine G → Engine G
publish event e = record e { events = if e.event_bus then event ∷ e.events else e.events }

-- The end of `_handle_fill`: the metric and the fill event of a complete fill.
unfoldable pub announce_fill : {G : Type 0} → Order → String → Engine G → Engine G
unfolding publish
announce_fill order oid e =
    if is_filled order.status
    then publish (fill_event oid order.symbol order.side order.filled_quantity order.filled_price)
        (record e { orders_filled = labels order ∷ e.orders_filled })
    else e

-- `_handle_fill` for an order object that is not the tracked one.
unfoldable pub handle_fill : {G : Type 0} → Order → String → Engine G → Engine G × Order
unfolding announce_fill book_fill applied_order
handle_fill order oid e = (
  announce_fill order oid (record e {
    order_mgr =
        Orders.update oid order.status order.filled_quantity order.filled_price order.fee
          e.order_mgr;
    portfolio = book_fill order e.portfolio;
  }),
  applied_order order,
)

-- `tracked.applied_filled_qty = order.applied_filled_qty`
unfoldable pub mirror_applied : Order → String → OrderManager → OrderManager
mirror_applied order oid om = elim (lookup oid om.orders) [
  | none ↦ om
  | some tracked ↦ record om {
    orders =
        insert oid (record tracked { applied_filled_qty = order.applied_filled_qty }) om.orders;
  }
]

-- The fill handling at the end of `submit`.
unfoldable pub settle_fill : {G : Type 0} → Order → String → Engine G → Engine G × Order
unfolding handle_fill mirror_applied
settle_fill order oid e =
    let handled = handle_fill order oid e in
    if has_fill order.status
    then (
      record handled.0 { order_mgr = mirror_applied handled.1 oid handled.0.order_mgr },
      handled.1,
    )
    else (e, order)

-- `submit` past the gateway's answer: tracking, the metric, the event and the fill.
unfoldable pub record_sent : {G : Type 0} → ℕ → Order → String → Engine G → Engine G × Order
unfolding settle_status request_of result_of publish settle_fill
record_sent now sent oid e =
    let order = record sent { order_id = oid; status = settle_status sent.status } in
    let tracked = (Orders.track (request_of order) (some (result_of order)) now e.order_mgr).0 in
    settle_fill order oid (
      publish (order_event oid order.symbol order.side order.status)
        (record e { order_mgr = tracked; order_total = labels order ∷ e.order_total }))

-- The gateway raised.
unfoldable pub record_rejected : {G : Type 0} → Order → Engine G → Engine G × Order
unfolding publish
record_rejected order e = (
  publish (order_event order.order_id order.symbol order.side OrderStatus.rejected)
      (record e { order_total = labels order ∷ e.order_total }),
  record order { status = OrderStatus.rejected },
)

module _ {G : Type 0} (ops : GatewayBase G) (now : ℕ) where
  unfoldable pub route : Order → G → Engine G → Engine G × Order
  unfolding record_sent record_rejected
  route order gw e =
      let sent = ops.send_order now order gw in
      let next = record e { gateway = some sent.gateway } in
      elim sent.exchange_id [
        | none ↦ record_rejected sent.order next
        | some oid ↦ record_sent now sent.order oid next
      ]

  -- `none` is the RuntimeError of an engine that was not started.
  unfoldable pub submit : Order → Engine G → Option (Engine G × Order)
  unfolding route
  submit order e = elim e.gateway [
    | none ↦ none
    | some gw ↦ some (
        if is_kill_active e.kill_switch
        then (e, record order { status = OrderStatus.rejected })
        else route order gw e)
  ]

  unfoldable pub submit_order : OrderRequest → Engine G → Option (Engine G × Order)
  unfolding submit build_order
  submit_order request e = submit (build_order request) e
