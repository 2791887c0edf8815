-- ===== src/Gateways.antt =====
-- The gateway interface (quantflow/execution/gateway_base.py) that the kill switch and the
-- execution engine call, and the paper gateway as one of its implementations.
-- A call that raises gives `none`; the state that it leaves behind is part of its result. For
-- `query_positions` a `none` is a `GatewayError`: `sync_positions` passes any other exception on,
-- which is not modelled, and the kill switch catches both alike.
use intelligent_trading_syst.Base.{
  ◌≡◌, ℕ, Bool, true, Option, none, some, List, [], String, ℤ, ◌==◌, if◌then◌else◌,
}
use intelligent_trading_syst.Models.{Order, Position}
use intelligent_trading_syst.Validators.{is_valid_symbol}
use intelligent_trading_syst.Paper.State.{
  PaperGateway, update_market_price, update_orderbook, query_positions,
}
use intelligent_trading_syst.Paper.Send.{send_order}

-- What `send_order` leaves: the gateway, the order with its stamps, and the exchange's id.
pub record Sent (G : Type 0) : Type 0 where
  pub gateway : G
  pub order : Order
  pub exchange_id : Option String

-- Clock readings, in milliseconds, come first.
pub record GatewayBase (G : Type 0) : Type 0 where
  pub send_order : ℕ → Order → G → Sent G
  pub cancel_order : String → String → G → G × Option Bool
  pub cancel_all_orders : G → G × Option (List Bool)
  pub query_positions : G → G × Option (List Position)
  pub update_market_price : String → ℤ → G → G
  pub update_orderbook : String → ℤ → ℤ → Bool → ℕ → G → G

-- The contract that the engine relies on: a gateway stamps its own id, the status and the fill on
-- the order, and leaves what was asked, and the engine's ledger of applied fills, as they were.
pub record KeepsRequest (before after : Order) : Type 0 where
  pub symbol : after.symbol ≡ before.symbol
  pub side : after.side ≡ before.side
  pub quantity : after.quantity ≡ before.quantity
  pub strategy_id : after.strategy_id ≡ before.strategy_id
  pub applied : after.applied_filled_qty ≡ before.applied_filled_qty

pub record IsLawful {G : Type 0} (ops : GatewayBase G) : Type 0 where
  pub keeps :
      (now : ℕ) (order : Order) (gw : G) → KeepsRequest order (ops.send_order now order gw).order

unfoldable pub paper_send : ℕ → Order → PaperGateway → Sent PaperGateway
paper_send now order gw = elim (send_order now order gw) [
  | none ↦ record { gateway = gw; order = order; exchange_id = none }
  | some (gw', order') ↦ record {
    gateway = gw';
    order = order';
    exchange_id = some order'.order_id;
  }
]

-- Paper orders fill at once, so there is nothing to cancel; only a bad symbol raises.
unfoldable pub paper_cancel : String → String → PaperGateway → PaperGateway × Option Bool
paper_cancel oid symbol gw =
    (gw, if symbol == "" then some true else if is_valid_symbol symbol then some true else none)

unfoldable pub paper_gateway : GatewayBase PaperGateway
paper_gateway = record {
  send_order = paper_send;
  cancel_order = paper_cancel;
  cancel_all_orders = λ gw. (gw, some []);
  query_positions = λ gw. (gw, some (query_positions gw));
  update_market_price = update_market_price;
  update_orderbook = update_orderbook;
}
