-- ===== src/Orders/Lifecycle.antt =====
-- The life cycle of tracked orders: their final states and the pending ledger.
use intelligent_trading_syst.Base.{
  none, some, not, ℕ, Option, ◌≡◌, Bool, true, false, String, lookup, arith, eq_iff, lookup-insert,
  lookup-erase, ℤ,
}
use intelligent_trading_syst.Models.{is_terminal, Order, OrderRequest, OrderResult, OrderStatus}
use intelligent_trading_syst.Orders.{
  track, tracked_order, store_tracked, OrderManager, is_terminal_at, update, cancel_order,
}
use intelligent_trading_syst.Orders.Eviction.{evict-live, evict-pending, is_live_at}

abbrev pub has_timer : String → OrderManager → Bool
has_timer oid om = elim (lookup oid om.pending) [ none ↦ false | some _ ↦ true ]

-- Every id in the pending ledger names a tracked order in no final state.
abbrev pub IsConsistent : OrderManager → Type 0
IsConsistent om = (oid : String) → has_timer oid om ≡ true → is_live_at oid om.orders ≡ true

-- A callback keeps the ledger consistent.
pub update-IsConsistent :
    (oid : String) (status : OrderStatus) (filled price fee : ℤ) (om : OrderManager)
    → IsConsistent om
    → IsConsistent (update oid status filled price fee om)
unfolding update
update-IsConsistent oid status filled price fee om h =
    λ j t. grind (arith, h j, eq_iff oid j, lookup-insert, lookup-erase)

-- A final order is left alone.
pub update-terminal :
    (oid j : String) (status : OrderStatus) (filled price fee : ℤ) (om : OrderManager)
    → is_terminal_at j om.orders ≡ true
    → lookup j (update oid status filled price fee om).orders ≡ lookup j om.orders
unfolding update is_terminal_at
update-terminal oid j status filled price fee om h = grind (arith, eq_iff oid j, lookup-insert)

-- A cancel keeps the ledger consistent.
pub cancel_order-IsConsistent :
    (oid : String) (om : OrderManager) → IsConsistent om → IsConsistent (cancel_order oid om).0
unfolding cancel_order
cancel_order-IsConsistent oid om h =
    λ j t. grind (arith, h j, eq_iff oid j, lookup-insert, lookup-erase)

store_tracked-IsConsistent :
    (o : Order) (now : ℕ) (om : OrderManager)
    → has_timer o.order_id om ≡ false
    → IsConsistent om
    → IsConsistent (store_tracked (o, not (is_terminal o.status)) now om)
unfolding store_tracked
store_tracked-IsConsistent o now om fresh h =
    λ j t. grind (arith, h j, eq_iff o.order_id j, lookup-insert, evict-live, evict-pending)

-- `track` of an id that has no timer keeps the ledger consistent.
pub track-IsConsistent :
    (request : OrderRequest) (result : Option OrderResult) (now : ℕ) (om : OrderManager)
    → has_timer (track request result now om).1.order_id om ≡ false
    → IsConsistent om
    → IsConsistent (track request result now om).0
unfolding track tracked_order
track-IsConsistent request (some result) now om fresh h =
    store_tracked-IsConsistent (tracked_order request (some result) now).0 now om fresh h
track-IsConsistent request none now om fresh h =
    store_tracked-IsConsistent (tracked_order request none now).0 now om fresh h
