-- ===== src/Engine/Handled.antt =====
-- What `_handle_fill` makes of a tracked order, partial fills above all.
use intelligent_trading_syst.Base.{
  ◌≡◌, refl, true, false, String, lookup-insert_self, insert-insert, ℤ, ◌-ℤ◌, is_pos, arith,
  -ℤ_parts, ap, ◌∙◌,
}
use intelligent_trading_syst.Models.{Order, OrderStatus}
use intelligent_trading_syst.Orders
use intelligent_trading_syst.Orders.{OrderManager, is_terminal_at, update_active}
use intelligent_trading_syst.Portfolio.{PortfolioManager}
use intelligent_trading_syst.Engine.Submit.{
  Engine, handle_fill, announce_fill, is_more, delta_filled, applied_order, book_fill,
}
use intelligent_trading_syst.Engine.Updates.{Push, stamp_push, store_order, handle_tracked}

active-stamped :
    (oid : String) (s : Order) (om : OrderManager)
    → s.status ≡ OrderStatus.partial
    → is_pos s.filled_quantity ≡ true
    → update_active oid s.status s.filled_quantity s.filled_price s.fee s om ≡ store_order oid s om
unfolding update_active store_order
active-stamped oid s om status sized = rw (sized, status) (ground arith)

-- The callback finds on the tracked object what it is about to write.
update-stamped :
    (oid : String) (s : Order) (om : OrderManager)
    → s.status ≡ OrderStatus.partial
    → is_pos s.filled_quantity ≡ true
    → Orders.update oid s.status s.filled_quantity s.filled_price s.fee (store_order oid s om)
      ≡ store_order oid s om
unfolding Orders.update store_order
update-stamped oid s om status sized = ground (
  arith,
  lookup-insert_self oid s om.orders,
  insert-insert oid s s om.orders,
  active-stamped oid s (store_order oid s om) status sized,
  status,
)

nothing_more : (a : ℤ) → is_more (a -ℤ a) ≡ false
nothing_more a = ground (arith, -ℤ_parts a a)

-- The order has nothing left to apply.
applied-delta : (s : Order) → is_more (delta_filled (applied_order s)) ≡ false
unfolding applied_order delta_filled
applied-delta s = grind (arith, nothing_more)

pub book_fill-applied : (s : Order) (pm : PortfolioManager) → book_fill (applied_order s) pm ≡ pm
unfolding book_fill
book_fill-applied s pm = rw (applied-delta s) refl

applied_idle : (s : Order) → is_more (delta_filled s) ≡ false → applied_order s ≡ s
unfolding applied_order
applied_idle s idle = rw idle refl

applied-applied : (s : Order) → applied_order (applied_order s) ≡ applied_order s
applied-applied s = applied_idle (applied_order s) (applied-delta s)

pub applied-status : (s : Order) → (applied_order s).status ≡ s.status
unfolding applied_order
applied-status s = ground arith

applied-filled : (s : Order) → (applied_order s).filled_quantity ≡ s.filled_quantity
unfolding applied_order
applied-filled s = ground arith

pub stamp-status :
    (push : Push) (status : OrderStatus) (o : Order) → (stamp_push push status o).status ≡ status
unfolding stamp_push
stamp-status push status o = refl

pub stamp-filled :
    (push : Push) (status : OrderStatus) (o : Order)
    → (stamp_push push status o).filled_quantity ≡ push.filled
unfolding stamp_push
stamp-filled push status o = refl

pub stamp-again :
    (push : Push) (status : OrderStatus) (o : Order)
    → let s = stamp_push push status o in stamp_push push status (applied_order s) ≡ applied_order s
unfolding stamp_push applied_order delta_filled
stamp-again push status o = ground arith

announce-partial :
    {G : Type 0}
    → (s : Order) (oid : String) (e : Engine G) → s.status ≡ OrderStatus.partial
    → announce_fill s oid e ≡ e
unfolding announce_fill
announce-partial s oid e status = ground (arith, status)

store-store :
    (oid : String) (s t : Order) (om : OrderManager)
    → store_order oid s (store_order oid t om) ≡ store_order oid s om
unfolding store_order
store-store oid s t om = ap (λ d. record om { orders = d }) (insert-insert oid s t om.orders)

module _ {G : Type 0} where
  -- What a partial fill of the tracked order comes to.
  pub handle-partial :
      (s : Order) (oid : String) (e : Engine G)
      → s.status ≡ OrderStatus.partial
      → is_pos s.filled_quantity ≡ true
      → handle_tracked s oid e ≡ record e {
        order_mgr = store_order oid (applied_order s) e.order_mgr;
        portfolio = book_fill s e.portfolio;
      }
  unfolding handle_tracked handle_fill
  handle-partial s oid e status sized =
      ap (λ (h : Engine G). record h { order_mgr = store_order oid (applied_order s) h.order_mgr })
        (announce-partial s oid _ status)
      ∙ ap
          (λ (om : OrderManager). record e {
            order_mgr = store_order oid (applied_order s) om;
            portfolio = book_fill s e.portfolio;
          })
          (update-stamped oid s e.order_mgr status sized)
      ∙ ap (λ (om : OrderManager). record e { order_mgr = om; portfolio = book_fill s e.portfolio })
          (store-store oid (applied_order s) s e.order_mgr)

  -- A second pass over an order with nothing left to apply.
  pub handle-applied :
      (s : Order) (oid : String) (e : Engine G)
      → s.status ≡ OrderStatus.partial
      → is_pos s.filled_quantity ≡ true
      → let once : Engine G = record e {
        order_mgr = store_order oid (applied_order s) e.order_mgr;
        portfolio = book_fill s e.portfolio;
      } in
        handle_tracked (applied_order s) oid once ≡ once
  handle-applied s oid e status sized =
      let t = applied_order s in
      handle-partial t oid _ (applied-status s ∙ status) (ap is_pos (applied-filled s) ∙ sized)
      ∙ ap
          (λ (pm : PortfolioManager). record e {
            order_mgr = store_order oid (applied_order t) (store_order oid t e.order_mgr);
            portfolio = pm;
          })
          (book_fill-applied s (book_fill s e.portfolio))
      ∙ ap (λ (om : OrderManager). record e { order_mgr = om; portfolio = book_fill s e.portfolio })
          (store-store oid (applied_order t) t e.order_mgr
            ∙ ap (λ u. store_order oid u e.order_mgr) (applied-applied s))
