-- ===== src/Engine/Halt.antt =====
-- The kill switch as a gate of the execution engine.
use intelligent_trading_syst.Base.{
  ℕ, ◌≡◌, refl, true, Option, none, some, List, [], ◌∷◌, String, arith, map,
}
use intelligent_trading_syst.Models.{Order, OrderStatus}
use intelligent_trading_syst.Gateways.{GatewayBase}
use intelligent_trading_syst.Kill.Switch.{KillSwitch, activate}
use intelligent_trading_syst.Engine.Submit.{Engine, submit}
use intelligent_trading_syst.Engine.Desk.{set_kill_switch}

-- The switch is active after `activate`, whatever the gateway did.
activate-active :
    {G : Type 0}
    → (ops : GatewayBase G) (now : ℕ) (reason : String) (ks : KillSwitch) (gw : G)
    → (activate ops now reason ks gw).0.active ≡ true
unfolding activate
activate-active ops now reason ks gw = ground arith

-- Orders submitted one after another, with the orders that come back.
abbrev pub submit_all :
    {G : Type 0} → GatewayBase G → ℕ → List Order → Engine G → Option (Engine G × List Order)
submit_all ops now [] e = some (e, [])
submit_all ops now (order ∷ orders) e = elim (submit ops now order e) [
  | none ↦ none
  | some (next, back) ↦ elim (submit_all ops now orders next) [
    | none ↦ none
    | some (last, backs) ↦ some (last, back ∷ backs)
  ]
]

abbrev pub refused : Order → Order
refused order = record order { status = OrderStatus.rejected }

blocked :
    {G : Type 0}
    → (ops : GatewayBase G) (now : ℕ) (ks : KillSwitch) (gw : G) (order : Order) (e : Engine G)
    → ks.active ≡ true
    → e.gateway ≡ some gw
    → submit ops now order (set_kill_switch (some ks) e)
      ≡ some (set_kill_switch (some ks) e, refused order)
unfolding submit set_kill_switch
blocked ops now ks gw order e active started = ground (arith, active, started)

blocked_all :
    {G : Type 0}
    → (ops : GatewayBase G) (now : ℕ) (ks : KillSwitch) (gw : G) (orders : List Order)
      (e : Engine G)
    → ks.active ≡ true
    → e.gateway ≡ some gw
    → submit_all ops now orders (set_kill_switch (some ks) e)
      ≡ some (set_kill_switch (some ks) e, map refused orders)
blocked_all ops now ks gw [] e active started = refl
blocked_all ops now ks gw (order ∷ orders) e active started = ground (
  arith,
  blocked ops now ks gw order e active started,
  blocked_all ops now ks gw orders e active started,
)

-- Once the kill switch was activated, with any reason and whatever the gateway answered to the
-- stop, a started engine that holds the switch refuses every order of any sequence: each comes
-- back rejected, and the engine, its gateway, its book and its orders stay as they were.
pub activate-blocks :
    {G : Type 0}
    → (ops : GatewayBase G) (stop_time now : ℕ) (reason : String) (ks : KillSwitch) (at_stop gw : G)
      (orders : List Order) (e : Engine G)
    → e.gateway ≡ some gw
    → let halted = set_kill_switch (some (activate ops stop_time reason ks at_stop).0) e in
      submit_all ops now orders halted ≡ some (halted, map refused orders)
activate-blocks ops stop_time now reason ks at_stop gw orders e started =
    blocked_all ops now _ gw orders e (activate-active ops stop_time reason ks at_stop) started
