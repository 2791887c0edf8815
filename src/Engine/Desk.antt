-- ===== src/Engine/Desk.antt =====
-- The other operations of the execution engine (quantflow/execution/engine.py): cancelling,
-- closing a position, timeouts, marks and the sync with the exchange.
use intelligent_trading_syst.Base.{
  ℕ, Bool, true, false, Option, none, some, List, [], ◌∷◌, String, lookup, ℤ, pos, if◌then◌else◌,
}
use intelligent_trading_syst.Models.{Order, OrderStatus, Position}
use intelligent_trading_syst.Orders
use intelligent_trading_syst.Portfolio.{PortfolioManager, set_position}
use intelligent_trading_syst.Gateways.{GatewayBase}
use intelligent_trading_syst.Kill.Switch.{KillSwitch}
use intelligent_trading_syst.Engine.Routing.{build_close_request, is_closeable, mark_position}
use intelligent_trading_syst.Engine.Submit.{Engine, submit_order}

-- The loop of `sync_positions`: the exchange's positions overwrite the book's.
unfoldable pub sync_loop : List Position → PortfolioManager → PortfolioManager
sync_loop [] pm = pm
sync_loop (p ∷ ps) pm = sync_loop ps (set_position p.symbol p pm)

unfoldable pub set_kill_switch : {G : Type 0} → Option KillSwitch → Engine G → Engine G
set_kill_switch ks e = record e { kill_switch = ks }

unfoldable pub set_portfolio : {G : Type 0} → PortfolioManager → Engine G → Engine G
set_portfolio pm e = record e { portfolio = pm }

module _ {G : Type 0} (ops : GatewayBase G) (now : ℕ) where
  -- `none` is an exception of the gateway.
  unfoldable pub cancel : String → String → Engine G → Engine G × Option Bool
  cancel oid symbol e = elim e.gateway [
    | none ↦ (e, some false)
    | some gw ↦
        let asked = ops.cancel_order oid symbol gw in
        let next = record e { gateway = some asked.0 } in
        elim asked.1 [
          | none ↦ (next, none)
          | some false ↦ (next, some false)
          | some true ↦ (
            record next {
              order_mgr =
                  Orders.update oid OrderStatus.cancelled (pos 0) (pos 0) (pos 0) e.order_mgr;
            },
            some true,
          )
        ]
  ]

  -- The result is the close order, if there is a position to close.
  unfoldable pub close_position : String → Engine G → Option (Engine G × Option Order)
  unfolding is_closeable build_close_request submit_order
  close_position symbol e = elim (lookup symbol e.portfolio.positions) [
    | none ↦ some (e, none)
    | some p ↦
        if is_closeable (some p)
        then elim (submit_order ops now (build_close_request p) e) [
          | none ↦ none
          | some (e', order) ↦ some (e', some order)
        ]
        else some (e, none)
  ]

  unfoldable pub check_timeouts : Engine G → Engine G × List (String × String)
  check_timeouts e =
      let checked = Orders.check_timeouts now e.order_mgr in
      (record e { order_mgr = checked.0 }, checked.1)

  unfoldable pub update_market_price : String → ℤ → Engine G → Engine G
  unfolding mark_position
  update_market_price symbol price e = record e {
    portfolio = mark_position symbol price e.portfolio;
    gateway = elim e.gateway [
      | none ↦ none
      | some gw ↦ some (ops.update_market_price symbol price gw)
    ];
  }

  unfoldable pub update_orderbook : String → ℤ → ℤ → Bool → Engine G → Engine G
  update_orderbook symbol bid ask mid_to_last e = record e {
    gateway = elim e.gateway [
      | none ↦ none
      | some gw ↦ some (ops.update_orderbook symbol bid ask mid_to_last now gw)
    ];
  }

  unfoldable pub sync_positions : Engine G → Engine G × Bool
  unfolding sync_loop
  sync_positions e = elim e.gateway [
    | none ↦ (e, false)
    | some gw ↦
        let asked = ops.query_positions gw in
        let next = record e { gateway = some asked.0 } in
        elim asked.1 [
          | none ↦ (next, false)
          | some positions ↦ (record next { portfolio = sync_loop positions e.portfolio }, true)
        ]
  ]
