-- ===== src/Engine/Booked.antt =====
-- A submitted order: what its immediate fill does to the book and to the tracked copy.
use intelligent_trading_syst.Base.{
  ℕ, ◌+◌, ◌≡◌, refl, true, not, none, some, [], ◌∷◌, String, Dict, lookup, insert, size,
  lookup-insert_self, weigh, weigh-insert_held, weigh-insert_new, ℤ, pos, ◌+ℤ◌, neg_ℤ, is_pos,
  ltb_ℤ, leb, arith, +ℤ-zero, Bool-cases, inl, inr, sym, ap, ◌∙◌,
}
use intelligent_trading_syst.Models.{Order, OrderSide, buy, sell, OrderStatus, is_terminal}
use intelligent_trading_syst.Orders
use intelligent_trading_syst.Orders.{
  OrderManager, update_active, new_order, stamp_result, tracked_order, store_tracked,
  evict_terminal_if_needed,
}
use intelligent_trading_syst.Paper.Send.{signed}
use intelligent_trading_syst.Portfolio.{PortfolioManager}
use intelligent_trading_syst.Paper.Positions.{held_quantity}
use intelligent_trading_syst.Engine.Submit.{
  Engine, publish, handle_fill, announce_fill, applied_order, request_of, result_of, mirror_applied,
  settle_fill, has_fill,
}
use intelligent_trading_syst.Engine.Booking.{
  moved_by, applied_total, update-applied, book_fill-moved, exchange, announced-orders,
  MovesTogether,
}

-- Two orders of the same request.
pub record Alike (o t : Order) : Type 0 where
  pub symbol : o.symbol ≡ t.symbol
  pub side : o.side ≡ t.side

abbrev filled_order : OrderStatus → ℤ → ℤ → ℤ → Order → Order
filled_order status filled price fee t = record t {
  status = status;
  filled_quantity = filled;
  filled_price = price;
  fee = fee;
}

size-insert_new :
    (k : String) (v : Order) (d : Dict Order) → lookup k d ≡ none → size (insert k v d) ≡ size d + 1
unfolding lookup insert
size-insert_new k v [] new = refl
size-insert_new k v ((j, w) ∷ d) new = ground (arith, size-insert_new k v d)

Alike-moved_by :
    (symbol : String) (a t : Order)
    → Alike a t
    → moved_by symbol (record t { applied_filled_qty = a.applied_filled_qty }) ≡ moved_by symbol a
Alike-moved_by symbol a t alike = rw (alike.symbol, alike.side) refl

signed-zero : (side : OrderSide) → signed side (pos 0) ≡ pos 0
unfolding neg_ℤ
signed-zero buy = refl
signed-zero sell = refl

moved-nothing :
    (symbol : String) (t : Order) → t.applied_filled_qty ≡ pos 0 → moved_by symbol t ≡ pos 0
unfolding neg_ℤ
moved-nothing symbol t h = ground (arith, h, signed-zero t.side)

-- A callback leaves an order of the same request, with the same applied amount, under the id.
update-lookup :
    (oid : String) (status : OrderStatus) (filled price fee : ℤ) (t : Order) (om : OrderManager)
    → lookup oid om.orders ≡ some t
    → (u : Order) × (lookup oid (Orders.update oid status filled price fee om).orders ≡ some u)
      × Alike u t
      × (u.applied_filled_qty ≡ t.applied_filled_qty)
unfolding Orders.update update_active
update-lookup oid status filled price fee t om found = elim (Bool-cases (is_terminal t.status)) [
  | inl final ↦ (t, ground (arith, found, final), record { symbol = refl; side = refl }, refl)
  | inr live ↦ elim (Bool-cases (is_pos filled)) [
    | inr none_filled ↦
        let u : Order = record t { status = status } in
        (
          u,
          ground (arith, found, live, none_filled, lookup-insert_self oid u om.orders),
          record { symbol = refl; side = refl },
          refl,
        )
    | inl some_filled ↦ elim (Bool-cases (ltb_ℤ filled t.quantity)) [
      | inl partly ↦
          let u = filled_order OrderStatus.partial filled price fee t in
          (
            u,
            ground (arith, found, live, some_filled, partly, lookup-insert_self oid u om.orders),
            record { symbol = refl; side = refl },
            refl,
          )
      | inr complete ↦
          let u = filled_order status filled price fee t in
          (
            u,
            ground (arith, found, live, some_filled, complete, lookup-insert_self oid u om.orders),
            record { symbol = refl; side = refl },
            refl,
          )
    ]
  ]
]

mirror-applied :
    (symbol oid : String) (a t : Order) (om : OrderManager)
    → lookup oid om.orders ≡ some t
    → Alike a t
    → applied_total symbol (mirror_applied a oid om) +ℤ moved_by symbol t
      ≡ applied_total symbol om +ℤ moved_by symbol a
unfolding mirror_applied
mirror-applied symbol oid a t om found alike =
    let u : Order = record t { applied_filled_qty = a.applied_filled_qty } in
    rw (mirror_applied, found)
      (weigh-insert_held (moved_by symbol) oid u t om.orders found
        ∙ ap (λ m. applied_total symbol om +ℤ m) (Alike-moved_by symbol a t alike))

stored-new :
    (t : Order) (now : ℕ) (om : OrderManager)
    → lookup t.order_id om.orders ≡ none
    → leb (size om.orders + 1) om.max_tracked_orders ≡ true
    → (store_tracked (t, not (is_terminal t.status)) now om).orders ≡ insert t.order_id t om.orders
unfolding store_tracked evict_terminal_if_needed
stored-new t now om fresh room = ground (arith, size-insert_new t.order_id t om.orders fresh)

pub track-applied :
    (symbol : String) (now : ℕ) (order : Order) (om : OrderManager)
    → lookup order.order_id om.orders ≡ none
    → leb (size om.orders + 1) om.max_tracked_orders ≡ true
    → let after = (Orders.track (request_of order) (some (result_of order)) now om).0 in
      (applied_total symbol after ≡ applied_total symbol om)
      × ((t : Order) × (lookup order.order_id after.orders ≡ some t)
          × Alike order t
          × (t.applied_filled_qty ≡ pos 0))
unfolding Orders.track tracked_order store_tracked evict_terminal_if_needed new_order stamp_result
    request_of result_of
track-applied symbol now order om fresh room =
    let t = stamp_result (new_order order.order_id (request_of order)) (result_of order) in
    let new = stored-new t now om fresh room in
    (
      ap (weigh (moved_by symbol)) new
          ∙ weigh-insert_new (moved_by symbol) order.order_id t om.orders fresh
          ∙ ap (λ m. applied_total symbol om +ℤ m) (moved-nothing symbol t refl)
          ∙ +ℤ-zero _,
      (
        t,
        ap (lookup order.order_id) new ∙ lookup-insert_self order.order_id t om.orders,
        record { symbol = refl; side = refl },
        refl,
      ),
    )

applied_order-Alike : (order t : Order) → Alike order t → Alike (applied_order order) t
unfolding applied_order
applied_order-Alike order t alike = record {
  symbol = ground (arith, alike.symbol);
  side = ground (arith, alike.side);
}

-- The callback and then the mirrored amount.
mirrored-total :
    (symbol oid : String) (order t : Order) (om : OrderManager)
    → lookup oid om.orders ≡ some t
    → Alike order t
    → t.applied_filled_qty ≡ pos 0
    → let called =
        Orders.update oid order.status order.filled_quantity order.filled_price order.fee om in
      applied_total symbol (mirror_applied (applied_order order) oid called)
      ≡ applied_total symbol om +ℤ moved_by symbol (applied_order order)
mirrored-total symbol oid order t om found alike idle =
    let a = applied_order order in
    let called =
      Orders.update oid order.status order.filled_quantity order.filled_price order.fee om in
    let there =
      update-lookup oid order.status order.filled_quantity order.filled_price order.fee t om
        found in
    let mine : Alike a t = applied_order-Alike order t alike in
    let alike_there : Alike a there.0 = record {
      symbol = mine.symbol ∙ sym there.2.symbol;
      side = mine.side ∙ sym there.2.side;
    } in
    sym (+ℤ-zero _)
    ∙ ap (λ m. applied_total symbol (mirror_applied a oid called) +ℤ m)
        (sym (moved-nothing symbol there.0 (there.3 ∙ idle)))
    ∙ mirror-applied symbol oid a there.0 called there.1 alike_there
    ∙ ap (λ w. w +ℤ moved_by symbol a)
        (update-applied symbol oid order.status order.filled_quantity order.filled_price order.fee
          om)

module _ {G : Type 0} where
  announced-book :
      (s : Order) (oid : String) (e : Engine G) → (announce_fill s oid e).portfolio ≡ e.portfolio
  unfolding announce_fill publish
  announced-book s oid e = ground arith

  -- The store that `settle_fill` leaves for an order with a fill.
  settled-orders :
      (symbol : String) (order t : Order) (oid : String) (e : Engine G)
      → lookup oid e.order_mgr.orders ≡ some t
      → Alike order t
      → t.applied_filled_qty ≡ pos 0
      → let handled = handle_fill order oid e in
        applied_total symbol (mirror_applied handled.1 oid handled.0.order_mgr)
        ≡ applied_total symbol e.order_mgr +ℤ moved_by symbol (applied_order order)
  unfolding handle_fill
  settled-orders symbol order t oid e found alike idle =
      ap (λ (om : OrderManager). applied_total symbol (mirror_applied (applied_order order) oid om))
        (announced-orders order oid _)
      ∙ mirrored-total symbol oid order t e.order_mgr found alike idle

  handled-held :
      (symbol : String) (order : Order) (oid : String) (e : Engine G)
      → held_quantity symbol (handle_fill order oid e).0.portfolio.positions
          +ℤ moved_by symbol order
        ≡ held_quantity symbol e.portfolio.positions +ℤ moved_by symbol (applied_order order)
  unfolding handle_fill
  handled-held symbol order oid e =
      ap (λ (pm : PortfolioManager). held_quantity symbol pm.positions +ℤ moved_by symbol order)
        (announced-book order oid _)
      ∙ book_fill-moved symbol order e.portfolio

  pub settle-together :
      (symbol : String) (order t : Order) (oid : String) (e : Engine G)
      → lookup oid e.order_mgr.orders ≡ some t
      → Alike order t
      → t.applied_filled_qty ≡ pos 0
      → order.applied_filled_qty ≡ pos 0
      → MovesTogether symbol e (settle_fill order oid e).0
  unfolding settle_fill
  settle-together symbol order t oid e found alike idle unapplied =
      elim (Bool-cases (has_fill order.status)) [
        | inr unfilled ↦ rw (settle_fill, unfilled) refl
        | inl filled ↦
            rw (settle_fill, filled)
              (exchange _ _ _ _ (pos 0) (moved_by symbol (applied_order order))
                (ap (λ m. held_quantity symbol (handle_fill order oid e).0.portfolio.positions +ℤ m)
                    (sym (moved-nothing symbol order unapplied))
                  ∙ handled-held symbol order oid e)
                (+ℤ-zero _ ∙ settled-orders symbol order t oid e found alike idle))
      ]
