-- ===== src/Engine/Replay.antt =====
-- The order stream of the execution engine under repeated pushes.
use intelligent_trading_syst.Base.{
  ◌≡◌, refl, true, false, none, some, String, ◌==◌, lookup, lookup-insert_self, pos, is_pos, arith,
  Bool-cases, Option-cases, inl, inr, sym, ap, ◌∙◌,
}
use intelligent_trading_syst.Models.{Order, OrderStatus, is_terminal}
use intelligent_trading_syst.Orders
use intelligent_trading_syst.Orders.{OrderManager, is_terminal_at, update_active}
use intelligent_trading_syst.Engine.Submit.{Engine, publish, handle_fill, is_more, applied_order}
use intelligent_trading_syst.Engine.Updates.{
  Push, is_cancel_word, stamp_push, store_order, handle_tracked, cancel_tracked, apply_live,
  apply_order_update,
}
use intelligent_trading_syst.Engine.Handled.{
  applied-status, stamp-status, stamp-filled, stamp-again, handle-partial, handle-applied,
}

cancelled-final :
    (o : Order) (oid : String) (status : OrderStatus) (om : OrderManager)
    → is_terminal status ≡ true
    → lookup oid om.orders ≡ some o
    → is_terminal o.status ≡ false
    → is_terminal_at oid (Orders.update oid status (pos 0) (pos 0) (pos 0) om).orders ≡ true
unfolding Orders.update is_terminal_at
cancelled-final o oid status om final found live = grind (arith, lookup-insert_self)

module _ {G : Type 0} where
  -- A push for an order in a final state, or for none, changes nothing.
  finished :
      (push : Push) (e : Engine G)
      → is_terminal_at push.id e.order_mgr.orders ≡ true
      → apply_order_update push e ≡ e
  unfolding apply_order_update is_terminal_at
  finished push e final = ground arith

  live-step :
      (push : Push) (o : Order) (e : Engine G)
      → (push.id == "") ≡ false
      → lookup push.id e.order_mgr.orders ≡ some o
      → is_terminal o.status ≡ false
      → apply_order_update push e ≡ apply_live push o e
  unfolding apply_order_update
  live-step push o e named found live = ground (arith, found, live)

  handled-stored :
      (s : Order) (oid : String) (e : Engine G)
      → lookup oid (handle_tracked s oid e).order_mgr.orders ≡ some (applied_order s)
  unfolding handle_tracked handle_fill store_order
  handled-stored s oid e = lookup-insert_self oid (applied_order s) _

  handled-final :
      (s : Order) (oid : String) (e : Engine G)
      → is_terminal s.status ≡ true
      → is_terminal_at oid (handle_tracked s oid e).order_mgr.orders ≡ true
  unfolding is_terminal_at
  handled-final s oid e final = ground (arith, handled-stored s oid e, applied-status s, final)

  cancel-again :
      (push : Push) (o : Order) (e : Engine G)
      → lookup push.id e.order_mgr.orders ≡ some o
      → is_terminal o.status ≡ false
      → apply_order_update push (cancel_tracked o push.id e) ≡ cancel_tracked o push.id e
  unfolding cancel_tracked publish
  cancel-again push o e found live =
      finished push _ (cancelled-final o push.id OrderStatus.cancelled e.order_mgr refl found live)

  unnamed_push :
      (push : Push) (e : Engine G) → (push.id == "") ≡ true → apply_order_update push e ≡ e
  unfolding apply_order_update
  unnamed_push push e h = rw h refl

  ignored :
      (push : Push) (e : Engine G)
      → lookup push.id e.order_mgr.orders ≡ none
      → apply_order_update push e ≡ e
  unfolding apply_order_update
  ignored push e untracked = ground (arith, untracked)

  live-nothing :
      (push : Push) (o : Order) (e : Engine G)
      → is_cancel_word push.status ≡ false
      → (push.status == "rejected") ≡ false
      → (push.status == "closed") ≡ false
      → is_more push.filled ≡ false
      → apply_live push o e ≡ e
  unfolding apply_live
  live-nothing push o e kept allowed open_order nothing =
      rw (kept, allowed, open_order, nothing) refl

  -- The conditions under which a push takes the branch of a partial fill.
  live-partial :
      (push : Push) (o : Order) (e : Engine G)
      → is_cancel_word push.status ≡ false
      → (push.status == "rejected") ≡ false
      → (push.status == "closed") ≡ false
      → is_more push.filled ≡ true
      → apply_live push o e ≡ handle_tracked (stamp_push push OrderStatus.partial o) push.id e
  unfolding apply_live
  live-partial push o e kept allowed open_order more = rw (kept, allowed, open_order, more) refl

  handle-again :
      (push : Push) (o : Order) (e : Engine G)
      → is_more push.filled ≡ true
      → let s = stamp_push push OrderStatus.partial o in
        let once = handle_tracked s push.id e in
        handle_tracked (stamp_push push OrderStatus.partial (applied_order s)) push.id once ≡ once
  handle-again push o e more =
      let s = stamp_push push OrderStatus.partial o in
      let status : s.status ≡ OrderStatus.partial = stamp-status push OrderStatus.partial o in
      let sized : is_pos s.filled_quantity ≡ true =
        ap is_pos (stamp-filled push OrderStatus.partial o) ∙ ground arith in
      let once = handle-partial s push.id e status sized in
      ap (λ (t : Order). handle_tracked t push.id (handle_tracked s push.id e))
        (stamp-again push OrderStatus.partial o)
      ∙ ap (handle_tracked (applied_order s) push.id) once
      ∙ handle-applied s push.id e status sized
      ∙ sym once

  partial-again :
      (push : Push) (o : Order) (e : Engine G)
      → (push.id == "") ≡ false
      → is_cancel_word push.status ≡ false
      → (push.status == "rejected") ≡ false
      → (push.status == "closed") ≡ false
      → is_more push.filled ≡ true
      → let once = handle_tracked (stamp_push push OrderStatus.partial o) push.id e in
        apply_order_update push once ≡ once
  partial-again push o e named kept allowed open_order more =
      let s = stamp_push push OrderStatus.partial o in
      live-step push (applied_order s) _ named (handled-stored s push.id e)
        (ap is_terminal (applied-status s ∙ stamp-status push OrderStatus.partial o))
      ∙ live-partial push (applied_order s) _ kept allowed open_order more
      ∙ handle-again push o e more

  live-again :
      (push : Push) (o : Order) (e : Engine G)
      → (push.id == "") ≡ false
      → lookup push.id e.order_mgr.orders ≡ some o
      → is_terminal o.status ≡ false
      → apply_order_update push (apply_live push o e) ≡ apply_live push o e
  unfolding apply_live
  live-again push o e named found live = elim (Bool-cases (is_cancel_word push.status)) [
    | inl cancelled ↦ rw cancelled (cancel-again push o e found live)
    | inr kept ↦ elim (Bool-cases (push.status == "rejected")) [
      | inl rejected ↦
          rw (kept, rejected)
            (finished push _
              (cancelled-final o push.id OrderStatus.rejected e.order_mgr refl found live))
      | inr allowed ↦ elim (Bool-cases (push.status == "closed")) [
        | inl closed ↦
            rw (kept, allowed, closed)
              (finished push _ (
                handled-final _ push.id e
                  (ap is_terminal (stamp-status push OrderStatus.filled o))))
        | inr open_order ↦ elim (Bool-cases (is_more push.filled)) [
          | inl more ↦
              rw (kept, allowed, open_order, more)
                (partial-again push o e named kept allowed open_order more)
          | inr nothing ↦
              rw (kept, allowed, open_order, nothing)
                (live-step push o e named found live
                  ∙ live-nothing push o e kept allowed open_order nothing)
        ]
      ]
    ]
  ]

  -- A push of the order stream that arrives twice leaves the engine exactly as one arrival does,
  -- whatever it says and whatever the engine tracks: the book, the orders, the timers, the events
  -- and the counters.
  pub apply_order_update-twice :
      (push : Push) (e : Engine G)
      → apply_order_update push (apply_order_update push e) ≡ apply_order_update push e
  unfolding is_terminal_at
  apply_order_update-twice push e = elim (Bool-cases (push.id == "")) [
    | inl unnamed ↦ ap (apply_order_update push) (unnamed_push push e unnamed)
    | inr named ↦ elim (Option-cases (lookup push.id e.order_mgr.orders)) [
      | inl untracked ↦ ap (apply_order_update push) (ignored push e untracked)
      | inr (o, found) ↦ elim (Bool-cases (is_terminal o.status)) [
        | inl final ↦ ap (apply_order_update push) (finished push e (ground (arith, found)))
        | inr live ↦
            let step = live-step push o e named found live in
            ap (apply_order_update push) step ∙ live-again push o e named found live ∙ sym step
      ]
    ]
  ]
