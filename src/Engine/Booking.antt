-- ===== src/Engine/Booking.antt =====
-- The book and the ledger of applied fills under the order stream of the execution engine.
use intelligent_trading_syst.Base.{
  weigh, weigh-insert_held, ◌≡◌, refl, true, false, some, List, [], ◌∷◌, String, ◌==◌, Dict, lookup,
  insert, insert-insert, eq_iff, ℤ, pos, ◌+ℤ◌, ◌-ℤ◌, neg_ℤ, is_pos, ltb_ℤ, arith, int_laws,
  Bool-cases, inl, inr, if◌then◌else◌, sym, ap, ◌∙◌, pos_part, neg_part,
}
use intelligent_trading_syst.Models.{Order, OrderSide, buy, sell, OrderStatus}
use intelligent_trading_syst.Orders
use intelligent_trading_syst.Orders.{OrderManager, update_active}
use intelligent_trading_syst.Portfolio
use intelligent_trading_syst.Portfolio.{PortfolioManager, is_flat}
use intelligent_trading_syst.Paper.Positions.{held_quantity}
use intelligent_trading_syst.Paper.Send.{signed}
use intelligent_trading_syst.Paper.Reduce.{settled, held-update_position, other-update_position}
use intelligent_trading_syst.Paper.Parity.{update_position-parity}
use intelligent_trading_syst.Engine.Submit.{
  Engine, publish, handle_fill, announce_fill, is_more, delta_filled, applied_order, book_fill,
}
use intelligent_trading_syst.Engine.Updates.{
  Push, stamp_push, store_order, handle_tracked, cancel_tracked, apply_live, apply_order_update,
  on_order_update,
}

-- What an order has moved the position in a symbol by.
abbrev pub moved_by : String → Order → ℤ
moved_by symbol order =
    if order.symbol == symbol then signed order.side order.applied_filled_qty else pos 0

-- One lot is the dust limit, so nothing is lost to it.
settled-sum : (held delta : ℤ) → settled held delta ≡ held +ℤ delta
settled-sum held delta = ground arith

held-trade :
    (symbol : String) (delta price fee : ℤ) (sid : String) (pm : PortfolioManager)
    → is_flat delta ≡ false
    → held_quantity symbol (Portfolio.update_position symbol delta price fee sid pm).positions
      ≡ held_quantity symbol pm.positions +ℤ delta
held-trade symbol delta price fee sid pm sized =
    ap (held_quantity symbol) (sym (update_position-parity symbol delta price fee sid pm sized))
    ∙ held-update_position symbol delta price sid pm.positions
    ∙ settled-sum (held_quantity symbol pm.positions) delta

held-other :
    (symbol other : String) (delta price fee : ℤ) (sid : String) (pm : PortfolioManager)
    → is_flat delta ≡ false
    → (symbol == other) ≡ false
    → held_quantity other (Portfolio.update_position symbol delta price fee sid pm).positions
      ≡ held_quantity other pm.positions
held-other symbol other delta price fee sid pm sized apart =
    ap (held_quantity other) (sym (update_position-parity symbol delta price fee sid pm sized))
    ∙ rw (held_quantity, other-update_position symbol other delta price sid pm.positions apart) refl

signed-sized :
    (side : OrderSide) (delta : ℤ) → is_more delta ≡ true → is_flat (signed side delta) ≡ false
unfolding neg_ℤ
signed-sized buy delta more = ground arith
signed-sized sell delta more = ground arith

signed-sub : (side : OrderSide) (a b : ℤ) → signed side (a -ℤ b) +ℤ signed side b ≡ signed side a
signed-sub buy a b = omega int_laws
signed-sub sell a b = omega int_laws

-- The book moves by what the order's ledger of applied fills moves by.
pub book_fill-moved :
    (symbol : String) (s : Order) (pm : PortfolioManager)
    → held_quantity symbol (book_fill s pm).positions +ℤ moved_by symbol s
      ≡ held_quantity symbol pm.positions +ℤ moved_by symbol (applied_order s)
unfolding book_fill applied_order delta_filled
book_fill-moved symbol s pm = grind (
  int_laws,
  eq_iff s.symbol symbol,
  held-trade,
  held-other,
  signed-sized,
  signed-sub s.side s.filled_quantity s.applied_filled_qty,
)

-- The sum over the tracked orders.
abbrev pub applied_total : String → OrderManager → ℤ
applied_total symbol om = weigh (moved_by symbol) om.orders

weigh-insert_same :
    (f : Order → ℤ) (oid : String) (p q : Order) (orders : Dict Order)
    → lookup oid orders ≡ some q
    → f p ≡ f q
    → weigh f (insert oid p orders) ≡ weigh f orders
weigh-insert_same f oid p q orders held same =
    grind (int_laws, weigh-insert_held f oid p q orders held)

pub active-applied :
    (symbol oid : String) (status : OrderStatus) (filled price fee : ℤ) (o : Order)
    (om : OrderManager)
    → lookup oid om.orders ≡ some o
    → applied_total symbol (update_active oid status filled price fee o om)
      ≡ applied_total symbol om
unfolding update_active
active-applied symbol oid status filled price fee o om found = elim (Bool-cases (is_pos filled)) [
  | inr none_filled ↦
      rw none_filled (weigh-insert_same (moved_by symbol) oid _ o om.orders found refl)
  | inl some_filled ↦ elim (Bool-cases (ltb_ℤ filled o.quantity)) [
    | inl partly ↦
        rw (some_filled, partly) (weigh-insert_same (moved_by symbol) oid _ o om.orders found refl)
    | inr complete ↦
        rw (some_filled, complete)
          (weigh-insert_same (moved_by symbol) oid _ o om.orders found refl)
  ]
]

-- A status callback applies nothing.
pub update-applied :
    (symbol oid : String) (status : OrderStatus) (filled price fee : ℤ) (om : OrderManager)
    → applied_total symbol (Orders.update oid status filled price fee om) ≡ applied_total symbol om
unfolding Orders.update
update-applied symbol oid status filled price fee om =
    grind (arith, active-applied symbol oid status filled price fee)

-- A callback on the object that is stored over afterwards leaves no trace in the store.
store-update :
    (oid : String) (a : Order) (status : OrderStatus) (filled price fee : ℤ) (om : OrderManager)
    → insert oid a (Orders.update oid status filled price fee om).orders ≡ insert oid a om.orders
unfolding Orders.update update_active
store-update oid a status filled price fee om = grind (arith, insert-insert)

pub exchange : (h' h w' w m m' : ℤ) → h' +ℤ m ≡ h +ℤ m' → w' +ℤ m ≡ w +ℤ m' → h' +ℤ w ≡ h +ℤ w'
exchange h' h w' w m m' book orders =
    omega (int_laws, ap pos_part book, ap neg_part book, ap pos_part orders, ap neg_part orders)

module _ {G : Type 0} where
  pub announced-orders :
      (s : Order) (oid : String) (e : Engine G) → (announce_fill s oid e).order_mgr ≡ e.order_mgr
  unfolding announce_fill publish
  announced-orders s oid e = ground arith

  tracked-orders :
      (s : Order) (oid : String) (e : Engine G)
      → (handle_tracked s oid e).order_mgr.orders ≡ insert oid (applied_order s) e.order_mgr.orders
  unfolding handle_tracked handle_fill store_order
  tracked-orders s oid e =
      ap (λ (om : OrderManager). insert oid (applied_order s) om.orders) (announced-orders s oid _)
      ∙ store-update oid (applied_order s) s.status s.filled_quantity s.filled_price s.fee _
      ∙ insert-insert oid (applied_order s) s e.order_mgr.orders

  tracked-book :
      (s : Order) (oid : String) (e : Engine G)
      → (handle_tracked s oid e).portfolio ≡ book_fill s e.portfolio
  unfolding handle_tracked handle_fill announce_fill publish
  tracked-book s oid e = ground arith

  -- The book and the applied fills of the tracked orders moved by the same quantity.
  abbrev pub MovesTogether : String → Engine G → Engine G → Type 0
  MovesTogether symbol e e' =
      held_quantity symbol e'.portfolio.positions +ℤ applied_total symbol e.order_mgr
      ≡ held_quantity symbol e.portfolio.positions +ℤ applied_total symbol e'.order_mgr

  pub chain :
      (symbol : String) (e f g : Engine G)
      → MovesTogether symbol e f
      → MovesTogether symbol f g
      → MovesTogether symbol e g
  chain symbol e f g first second = grind int_laws

  handle-MovesTogether :
      (symbol : String) (s o : Order) (oid : String) (e : Engine G)
      → lookup oid e.order_mgr.orders ≡ some o
      → moved_by symbol s ≡ moved_by symbol o
      → MovesTogether symbol e (handle_tracked s oid e)
  handle-MovesTogether symbol s o oid e found same =
      rw (tracked-orders s oid e, tracked-book s oid e)
        (exchange _ _ _ _ (moved_by symbol s) (moved_by symbol (applied_order s))
          (book_fill-moved symbol s e.portfolio)
          (ap (λ m. weigh (moved_by symbol) (insert oid (applied_order s) e.order_mgr.orders) +ℤ m)
              same
            ∙ weigh-insert_held (moved_by symbol) oid (applied_order s) o e.order_mgr.orders found))

  live-MovesTogether :
      (symbol : String) (push : Push) (o : Order) (e : Engine G)
      → lookup push.id e.order_mgr.orders ≡ some o
      → MovesTogether symbol e (apply_live push o e)
  unfolding apply_live stamp_push cancel_tracked publish
  live-MovesTogether symbol push o e found = grind (
    arith,
    update-applied symbol push.id OrderStatus.cancelled (pos 0) (pos 0) (pos 0) e.order_mgr,
    update-applied symbol push.id OrderStatus.rejected (pos 0) (pos 0) (pos 0) e.order_mgr,
    handle-MovesTogether symbol (stamp_push push OrderStatus.filled o) o push.id e found refl,
    handle-MovesTogether symbol (stamp_push push OrderStatus.partial o) o push.id e found refl,
  )

  push-MovesTogether :
      (symbol : String) (push : Push) (e : Engine G)
      → MovesTogether symbol e (apply_order_update push e)
  unfolding apply_order_update
  push-MovesTogether symbol push e = grind (arith, live-MovesTogether)

  -- Whatever the order stream pushes, for whatever orders and in whatever sequence, the position
  -- in each symbol moves by exactly what the applied fills of the tracked orders in that symbol
  -- move by.
  pub on_order_update-MovesTogether :
      (symbol : String) (pushes : List Push) (e : Engine G)
      → MovesTogether symbol e (on_order_update pushes e)
  unfolding on_order_update
  on_order_update-MovesTogether symbol [] e = refl
  on_order_update-MovesTogether symbol (push ∷ pushes) e =
      chain symbol e (apply_order_update push e)
        (on_order_update pushes (apply_order_update push e)) (push-MovesTogether symbol push e)
        (on_order_update-MovesTogether symbol pushes (apply_order_update push e))
