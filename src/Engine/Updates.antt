-- ===== src/Engine/Updates.antt =====
-- The order stream (`_on_order_update`, `_apply_order_update`) of the execution engine
-- (quantflow/execution/engine.py).
-- A malformed push, which the caller logs and skips, is not in the list; one that raises after it
-- has stamped the tracked order leaves that stamp, which is not modelled. `OrderManager.update` on
-- the tracked object writes what the object already carries, so the object goes back to the store.
-- The tracked order is a shared object, so what is written to it here is written to the store of
-- the order manager. A push is what the program reads of one entry, its status in lower case.
use intelligent_trading_syst.Base.{
  Bool, ◌||◌, Option, none, some, List, [], ◌∷◌, String, ◌==◌, lookup, insert, ℤ, pos, is_pos,
  if◌then◌else◌,
}
use intelligent_trading_syst.Models.{Order, OrderStatus, is_terminal}
use intelligent_trading_syst.Orders
use intelligent_trading_syst.Orders.{OrderManager}
use intelligent_trading_syst.Engine.Submit.{Engine, order_event, publish, handle_fill, is_more}

pub record Push : Type 0 where
  pub id : String
  pub status : String
  pub filled : ℤ
  pub average : ℤ
  pub fee_cost : Option ℤ

abbrev pub is_cancel_word : String → Bool
is_cancel_word status = status == "canceled" || status == "cancelled" || status == "expired"

-- The cumulative values of the push on the tracked order.
unfoldable pub stamp_push : Push → OrderStatus → Order → Order
stamp_push push status order = record order {
  filled_quantity = push.filled;
  filled_price = if is_pos push.average then push.average else order.filled_price;
  fee = elim push.fee_cost [ none ↦ order.fee | some cost ↦ cost ];
  status = status;
}

unfoldable pub store_order : String → Order → OrderManager → OrderManager
store_order oid order om = record om { orders = insert oid order om.orders }

module _ {G : Type 0} where
  -- `_handle_fill` on the tracked object: it carries the stamps, and then the applied amount.
  unfoldable pub handle_tracked : Order → String → Engine G → Engine G
  unfolding store_order handle_fill
  handle_tracked order oid e =
      let stamped = record e { order_mgr = store_order oid order e.order_mgr } in
      let handled = handle_fill order oid stamped in
      record handled.0 { order_mgr = store_order oid handled.1 handled.0.order_mgr }

  unfoldable pub cancel_tracked : Order → String → Engine G → Engine G
  unfolding publish
  cancel_tracked order oid e =
      publish (order_event oid order.symbol order.side OrderStatus.cancelled) (record e {
        order_mgr = Orders.update oid OrderStatus.cancelled (pos 0) (pos 0) (pos 0) e.order_mgr;
      })

  -- `_apply_order_update` for a tracked order in no final state.
  unfoldable pub apply_live : Push → Order → Engine G → Engine G
  unfolding handle_tracked cancel_tracked stamp_push
  apply_live push order e =
      if is_cancel_word push.status
      then cancel_tracked order push.id e
      else if push.status == "rejected"
      then record e {
        order_mgr = Orders.update push.id OrderStatus.rejected (pos 0) (pos 0) (pos 0) e.order_mgr;
      }
      else if push.status == "closed"
      then handle_tracked (stamp_push push OrderStatus.filled order) push.id e
      else if is_more push.filled
      then handle_tracked (stamp_push push OrderStatus.partial order) push.id e
      else e

  unfoldable pub apply_order_update : Push → Engine G → Engine G
  unfolding apply_live
  apply_order_update push e =
      if push.id == "" then e else elim (lookup push.id e.order_mgr.orders) [
        | none ↦ e
        | some order ↦ if is_terminal order.status then e else apply_live push order e
      ]

  unfoldable pub on_order_update : List Push → Engine G → Engine G
  unfolding apply_order_update
  on_order_update [] e = e
  on_order_update (push ∷ pushes) e = on_order_update pushes (apply_order_update push e)
