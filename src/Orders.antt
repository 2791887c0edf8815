-- ===== src/Orders.antt =====
-- The order manager (quantflow/execution/order_manager.py): the life cycle of each order, the
-- pending ledger behind the timeouts, and the retention cap.
-- The tracked orders are shared objects of the program; here the dict `orders` is their store.
-- A method is one step, as it is when nothing else writes while it runs. The program holds its lock
-- for less: `update` writes to the order after it has released the lock, and `check_timeouts` takes
-- none. Clock readings are in milliseconds and come as arguments.
pub mod Eviction
pub mod Lifecycle
pub mod Timeouts
pub mod Finality
pub mod Examples
use mathlib.Core.List.{reverse}
use intelligent_trading_syst.Base.{
  ℕ, ◌+◌, Bool, true, false, not, ◌&&◌, Option, none, some, List, [], ◌∷◌, String, Dict, lookup,
  insert, erase, size, keys, values, keep_if, ℤ, pos, is_pos, ltb_ℤ, leb, ◌==◌, str_append, show,
  if◌then◌else◌,
}
use intelligent_trading_syst.Models.{
  OrderStatus, OrderSide, Order, OrderRequest, OrderResult, is_terminal, is_open,
}

-- `max_tracked_orders` is the module constant MAX_TRACKED_ORDERS, 10,000, which the tests lower.
pub record OrderManager : Type 0 where
  pub timeout : ℕ
  pub max_tracked_orders : ℕ
  pub orders : Dict Order
  pub pending : Dict ℕ
  pub timed_out_metrics : List (String × OrderSide)

-- Whether the id names a tracked order in a final state.
unfoldable pub is_terminal_at : String → Dict Order → Bool
is_terminal_at oid orders = elim (lookup oid orders) [
  | none ↦ false
  | some order ↦ is_terminal order.status
]

-- The loop of `_evict_terminal_if_needed` over the keys, oldest first, with its `break`.
unfoldable pub evict_loop : ℕ → List String → Dict Order → Dict Order
unfolding is_terminal_at
evict_loop cap [] orders = orders
evict_loop cap (oid ∷ oids) orders =
    let rest =
      evict_loop cap oids (if is_terminal_at oid orders then erase oid orders else orders) in
    if leb (size orders) cap then orders else rest

unfoldable pub evict_terminal_if_needed : OrderManager → OrderManager
unfolding evict_loop
evict_terminal_if_needed om =
    if leb (size om.orders) om.max_tracked_orders
    then om
    else record om { orders = evict_loop om.max_tracked_orders (keys om.orders) om.orders }

-- The `Order` that `track` builds from a request.
unfoldable pub new_order : String → OrderRequest → Order
new_order oid request = record {
  order_id = oid;
  symbol = request.symbol;
  side = request.side;
  order_type = request.order_type;
  quantity = request.quantity;
  price = request.price;
  status = OrderStatus.submitted;
  filled_quantity = pos 0;
  filled_price = pos 0;
  fee = pos 0;
  strategy_id = request.strategy_id;
  created_at = 0;
  applied_filled_qty = pos 0;
  params = [];
}

unfoldable pub stamp_result : Order → OrderResult → Order
stamp_result order result = record order {
  status = result.status;
  filled_quantity = result.filled_quantity;
  filled_price = result.average_price;
  fee = result.fee;
}

-- The order, and whether it joins the pending ledger.
unfoldable pub tracked_order : OrderRequest → Option OrderResult → ℕ → Order × Bool
unfolding new_order stamp_result
tracked_order request (some result) now =
    (stamp_result (new_order result.order_id request) result, not (is_terminal result.status))
tracked_order request none now = (new_order (str_append "local-" (show now)) request, true)

-- The last steps of `track`: the pending ledger, the store and the eviction.
unfoldable pub store_tracked : Order × Bool → ℕ → OrderManager → OrderManager
store_tracked (order, waits) now om = evict_terminal_if_needed (record om {
  orders = insert order.order_id order om.orders;
  pending = if waits then insert order.order_id now om.pending else om.pending;
})

unfoldable pub track : OrderRequest → Option OrderResult → ℕ → OrderManager → OrderManager × Order
unfolding tracked_order store_tracked
track request result now om =
    let t = tracked_order request result now in (store_tracked t now om, t.0)

-- `update` past its two early returns, for the order found under the id.
unfoldable pub update_active :
    String → OrderStatus → ℤ → ℤ → ℤ → Order → OrderManager → OrderManager
update_active oid status filled_quantity filled_price fee order om =
    if is_pos filled_quantity && ltb_ℤ filled_quantity order.quantity
    then record om {
      orders =
          insert oid
            (record order {
              status = OrderStatus.partial;
              filled_quantity = filled_quantity;
              filled_price = filled_price;
              fee = fee;
            })
            om.orders;
    }
    else record om {
      orders =
          insert oid
            (if is_pos filled_quantity
              then record order {
                status = status;
                filled_quantity = filled_quantity;
                filled_price = filled_price;
                fee = fee;
              }
              else record order { status = status })
            om.orders;
      pending = if is_terminal status then erase oid om.pending else om.pending;
    }

unfoldable pub update : String → OrderStatus → ℤ → ℤ → ℤ → OrderManager → OrderManager
unfolding update_active
update oid status filled_quantity filled_price fee om = elim (lookup oid om.orders) [
  | none ↦ om
  | some order ↦
      if is_terminal order.status
      then om
      else update_active oid status filled_quantity filled_price fee order om
]

-- One overdue entry of the loop in `check_timeouts`.
unfoldable pub time_out : String → OrderManager → OrderManager × String
time_out oid om = elim (lookup oid om.orders) [
  | none ↦ (record om { pending = erase oid om.pending }, "")
  | some order ↦ (
    record om {
      orders = insert oid (record order { status = OrderStatus.cancelled }) om.orders;
      pending = erase oid om.pending;
      timed_out_metrics = (order.symbol, order.side) ∷ om.timed_out_metrics;
    },
    order.symbol,
  )
]

-- The loop of `check_timeouts` over a copy of the ledger; the pairs stand in reverse order.
unfoldable pub timeout_loop :
    ℕ → Dict ℕ → List (String × String) → OrderManager → OrderManager × List (String × String)
unfolding time_out
timeout_loop now [] out om = (om, out)
timeout_loop now ((oid, ts) ∷ entries) out om =
    let late = leb now (ts + om.timeout) in
    let next = if late then om else (time_out oid om).0 in
    let out' = if late then out else (oid, (time_out oid om).1) ∷ out in
    timeout_loop now entries out' next

unfoldable pub check_timeouts : ℕ → OrderManager → OrderManager × List (String × String)
unfolding timeout_loop
check_timeouts now om = let (om', out) = timeout_loop now om.pending [] om in (om', reverse out)

pub data CancelReply : Type 0 where
  ok : CancelReply
  already_terminal : OrderStatus → CancelReply
  only_submitted : OrderStatus → CancelReply
  key_error : CancelReply

abbrev is_submitted : OrderStatus → Bool
is_submitted OrderStatus.submitted = true
is_submitted _ = false

unfoldable pub cancel_order : String → OrderManager → OrderManager × CancelReply
cancel_order oid om = elim (lookup oid om.orders) [
  | none ↦ (om, key_error)
  | some order ↦
      if is_terminal order.status
      then (om, already_terminal order.status)
      else if not (is_submitted order.status)
      then (om, only_submitted order.status)
      else (
        record om {
          orders = insert oid (record order { status = OrderStatus.cancelled }) om.orders;
          pending = erase oid om.pending;
        },
        ok,
      )
]

unfoldable pub get_order : String → OrderManager → Option Order
get_order oid om = lookup oid om.orders

unfoldable pub get_open_orders : OrderManager → List Order
get_open_orders om = keep_if (λ o. is_open o.status) (values om.orders)

unfoldable pub get_orders_by_strategy : String → OrderManager → List Order
get_orders_by_strategy sid om = keep_if (λ o. o.strategy_id == sid) (values om.orders)
