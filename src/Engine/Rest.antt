-- ===== src/Engine/Rest.antt =====
-- `submit` of the execution engine: the gateway's immediate answer, the book and the tracked order.
use intelligent_trading_syst.Base.{
  ℕ, ◌+◌, ◌≡◌, refl, true, none, some, ◌∷◌, String, lookup, size, pos, ◌+ℤ◌, leb, arith, Bool-cases,
  Option-cases, inl, inr, sym, ap, ◌∙◌,
}
use intelligent_trading_syst.Models.{Order, OrderStatus}
use intelligent_trading_syst.Orders
use intelligent_trading_syst.Orders.{OrderManager}
use intelligent_trading_syst.Paper.Positions.{held_quantity}
use intelligent_trading_syst.Paper.State.{PaperGateway}
use intelligent_trading_syst.Paper.Send.{
  send_order, send_numbered, send_valid, fill_order, stamp_fill,
}
use intelligent_trading_syst.Gateways.{
  GatewayBase, KeepsRequest, IsLawful, paper_send, paper_gateway,
}
use intelligent_trading_syst.Engine.Submit.{
  Engine, publish, request_of, result_of, settle_fill, settle_status, record_sent, record_rejected,
  labels, order_event, route, submit, is_kill_active,
}
use intelligent_trading_syst.Engine.Booking.{MovesTogether, chain}
use intelligent_trading_syst.Engine.Booked.{track-applied, settle-together}

module _ {G : Type 0} where
  published-same :
      (symbol oid : String) (order : Order) (e : Engine G)
      → MovesTogether symbol e (publish (order_event oid order.symbol order.side order.status) e)
  unfolding publish
  published-same symbol oid order e = refl

  sent-together :
      (symbol : String) (now : ℕ) (sent : Order) (oid : String) (e : Engine G)
      → sent.applied_filled_qty ≡ pos 0
      → lookup oid e.order_mgr.orders ≡ none
      → leb (size e.order_mgr.orders + 1) e.order_mgr.max_tracked_orders ≡ true
      → MovesTogether symbol e (record_sent now sent oid e).0
  unfolding record_sent publish
  sent-together symbol now sent oid e unapplied fresh room =
      let order : Order = record sent { order_id = oid; status = settle_status sent.status } in
      let tracked = track-applied symbol now order e.order_mgr fresh room in
      let next = publish (order_event oid order.symbol order.side order.status) (record e {
        order_mgr = (Orders.track (request_of order) (some (result_of order)) now e.order_mgr).0;
        order_total = labels order ∷ e.order_total;
      }) in
      chain symbol e next (settle_fill order oid next).0
        (ap (λ w. held_quantity symbol e.portfolio.positions +ℤ w) (sym tracked.0))
        (settle-together symbol order tracked.1.0 oid next tracked.1.1 tracked.1.2 tracked.1.3
          unapplied)

  rejected-same :
      (symbol : String) (order : Order) (e : Engine G)
      → MovesTogether symbol e (record_rejected order e).0
  unfolding record_rejected publish
  rejected-same symbol order e = refl

module _ {G : Type 0} (ops : GatewayBase G) (lawful : IsLawful ops) where
  route-together :
      (symbol : String) (now : ℕ) (order : Order) (gw : G) (e : Engine G)
      → order.applied_filled_qty ≡ pos 0
      → ((oid : String)
          → (ops.send_order now order gw).exchange_id ≡ some oid
          → lookup oid e.order_mgr.orders ≡ none)
      → leb (size e.order_mgr.orders + 1) e.order_mgr.max_tracked_orders ≡ true
      → MovesTogether symbol e (route ops now order gw e).0
  unfolding route
  route-together symbol now order gw e unapplied fresh room =
      let sent = ops.send_order now order gw in
      let next : Engine G = record e { gateway = some sent.gateway } in
      elim (Option-cases sent.exchange_id) [
        | inl raised ↦ rw (route, raised) (rejected-same symbol sent.order next)
        | inr (oid, answered) ↦
            rw (route, answered)
              (sent-together symbol now sent.order oid next
                ((lawful.keeps now order gw).applied ∙ unapplied) (fresh oid answered) room)
      ]

  -- A new order submitted to a started engine always gets an answer. On a gateway that keeps its
  -- contract, when the exchange's id is new and the order manager has room, the position in each
  -- symbol then moves by exactly what the applied fills of the tracked orders move by, whether
  -- the order fills, fills in part, rests, is rejected, raises, or meets the kill switch.
  pub submit-MovesTogether :
      (symbol : String) (now : ℕ) (order : Order) (gw : G) (e : Engine G)
      → e.gateway ≡ some gw
      → order.applied_filled_qty ≡ pos 0
      → ((oid : String)
          → (ops.send_order now order gw).exchange_id ≡ some oid
          → lookup oid e.order_mgr.orders ≡ none)
      → leb (size e.order_mgr.orders + 1) e.order_mgr.max_tracked_orders ≡ true
      → (answer : Engine G × Order) × (submit ops now order e ≡ some answer)
        × MovesTogether symbol e answer.0
  unfolding submit
  submit-MovesTogether symbol now order gw e started unapplied fresh room =
      elim (Bool-cases (is_kill_active e.kill_switch)) [
        | inl halted ↦ (
          (e, record order { status = OrderStatus.rejected }),
          ground (arith, started, halted),
          refl,
        )
        | inr running ↦ (
          route ops now order gw e,
          ground (arith, started, running),
          route-together symbol now order gw e unapplied fresh room,
        )
      ]

keeps-paper :
    (now : ℕ) (order : Order) (gw : PaperGateway)
    → KeepsRequest order (paper_send now order gw).order
unfolding paper_send send_order send_numbered send_valid fill_order stamp_fill
keeps-paper now order gw = record {
  symbol = ground arith;
  side = ground arith;
  quantity = ground arith;
  strategy_id = ground arith;
  applied = ground arith;
}

-- The paper gateway keeps the contract: it stamps its own fields of the order and no others.
pub paper_gateway-IsLawful : IsLawful paper_gateway
unfolding paper_gateway
paper_gateway-IsLawful = record { keeps = keeps-paper }
