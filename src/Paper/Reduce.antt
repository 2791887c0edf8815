-- ===== src/Paper/Reduce.antt =====
-- Reduce-only orders of the paper gateway: what they leave of a position.
use intelligent_trading_syst.Base.{
  ℕ, ◌+◌, ◌≤◌, ◌≡◌, ◌⊎◌, refl, true, false, ◌&&◌, none, some, String, ◌==◌, Dict, lookup,
  lookup-insert, lookup-insert_self, lookup-erase_self, lookup-erase, ℤ, pos, ◌+ℤ◌, neg_ℤ, abs,
  is_pos, int_laws, arith, Bool-cases, inl, inr, if◌then◌else◌,
}
use intelligent_trading_syst.Models.{OrderSide, buy, sell, Order, Position}
use intelligent_trading_syst.Validators.{is_valid_symbol}
use intelligent_trading_syst.Portfolio.{is_flat}
use intelligent_trading_syst.Portfolio.Basis.{is_opposing}
use intelligent_trading_syst.Paper.State.{PaperGateway, resolve_fill_price, bbo_stale}
use intelligent_trading_syst.Paper.Positions.{update_position, moved_position, held_quantity}
use intelligent_trading_syst.Paper.Send.{
  capped_quantity, signed, is_reduce_only, fill_order, slipped_price, send_valid, send_numbered,
  send_order,
}

-- The quantity held after a fill of `delta`: dust is dropped.
abbrev pub settled : ℤ → ℤ → ℤ
settled held delta = if is_flat (held +ℤ delta) then pos 0 else held +ℤ delta

zero-+ℤ : (a : ℤ) → pos 0 +ℤ a ≡ a
zero-+ℤ a = omega int_laws

pub held-update_position :
    (symbol : String) (delta price : ℤ) (sid : String) (positions : Dict Position)
    → held_quantity symbol (update_position symbol delta price sid positions)
      ≡ settled (held_quantity symbol positions) delta
unfolding update_position moved_position
held-update_position symbol delta price sid positions =
    grind (arith, zero-+ℤ, lookup-insert_self, lookup-erase_self)

-- Other symbols keep their positions.
pub other-update_position :
    (symbol other : String) (delta price : ℤ) (sid : String) (positions : Dict Position)
    → (symbol == other) ≡ false
    → lookup other (update_position symbol delta price sid positions) ≡ lookup other positions
unfolding update_position
other-update_position symbol other delta price sid positions apart =
    grind (arith, lookup-insert, lookup-erase)

-- The part of a position that is left has not grown and has not changed sides.
abbrev pub Shrinks : ℤ → ℤ → Type 0
Shrinks held left = (abs left ≤ abs held) × (is_opposing held left ≡ false)

capped-Shrinks :
    (side : OrderSide) (held quantity : ℤ)
    → is_pos quantity ≡ true
    → is_opposing held (signed side quantity) ≡ true
    → Shrinks held (settled held (signed side (capped_quantity side held quantity)))
unfolding capped_quantity ◌+ℤ◌ neg_ℤ
capped-Shrinks buy held quantity sized against = ground arith
capped-Shrinks sell held quantity sized against = ground arith

still-Shrinks : (held : ℤ) → Shrinks held held
still-Shrinks held = ground arith

fill_order-held :
    (oid : String) (order : Order) (quantity price : ℤ) (gw : PaperGateway)
    → held_quantity order.symbol (fill_order oid order quantity price gw).0.positions
      ≡ settled (held_quantity order.symbol gw.positions) (signed order.side quantity)
unfolding fill_order
fill_order-held oid order quantity price gw =
    held-update_position order.symbol (signed order.side quantity)
      (slipped_price order.symbol order.side price gw) order.strategy_id gw.positions

send_valid-Shrinks :
    (oid : String) (now : ℕ) (order : Order) (gw : PaperGateway)
    → is_reduce_only order ≡ true
    → is_pos order.quantity ≡ true
    → is_opposing (held_quantity order.symbol gw.positions) (signed order.side order.quantity)
      ≡ true
    → Shrinks
        (held_quantity order.symbol gw.positions)
        (held_quantity order.symbol (send_valid oid now order gw).0.positions)
unfolding send_valid
send_valid-Shrinks oid now order gw reduce sized against =
    let held = held_quantity order.symbol gw.positions in
    let price = resolve_fill_price order.symbol order.side order.price gw in
    elim (Bool-cases (is_pos price)) [
      | inr unpriced ↦ rw unpriced (still-Shrinks held)
      | inl priced ↦
          elim (Bool-cases (gw.orderbook_fill_enabled && bbo_stale order.symbol now gw)) [
            | inl stale ↦ rw (priced, stale) (still-Shrinks held)
            | inr fresh ↦ elim (Bool-cases (is_flat held)) [
              | inl flat ↦ rw (priced, fresh, reduce, flat) (still-Shrinks held)
              | inr open_leg ↦
                  rw
                    (
                      priced,
                      fresh,
                      reduce,
                      open_leg,
                      fill_order-held oid order (capped_quantity order.side held order.quantity)
                          price gw,
                    )
                    (capped-Shrinks order.side held order.quantity sized against)
            ]
          ]
    ]

-- A reduce-only order that works against the position, sent to the gateway, is either refused by
-- the validation or leaves a part of the position that has not grown and has not changed sides,
-- whatever quantity the order asks for.
pub reduce_only-Shrinks :
    (now : ℕ) (order : Order) (gw : PaperGateway)
    → is_reduce_only order ≡ true
    → is_opposing (held_quantity order.symbol gw.positions) (signed order.side order.quantity)
      ≡ true
    → (send_order now order gw ≡ none)
      ⊎ ((sent : PaperGateway × Order) × (send_order now order gw ≡ some sent)
          × Shrinks
              (held_quantity order.symbol gw.positions)
              (held_quantity order.symbol sent.0.positions))
unfolding send_order send_numbered
reduce_only-Shrinks now order gw reduce against =
    elim (Bool-cases (is_pos order.quantity && is_valid_symbol order.symbol)) [
      | inr refused ↦ inl (rw refused refl)
      | inl valid ↦ inr (
        send_numbered (gw.order_counter + 1) now order gw,
        rw valid refl,
        send_valid-Shrinks _ now order (record gw { order_counter = gw.order_counter + 1 }) reduce
            (ground arith) against,
      )
    ]
