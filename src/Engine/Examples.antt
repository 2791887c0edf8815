-- ===== src/Engine/Examples.antt =====
-- Execution engine: test data, runs of the definitions and instances of the theorems.
use intelligent_trading_syst.Base.{
  values, Dict, ◌≡◌, refl, true, false, none, some, [], ◌∷◌, String, lookup, ℤ, pos, arith, show,
  contains, sym, ◌∙◌,
}
use mathlib.Core.Path.{subst}
use intelligent_trading_syst.Models.{Order, Position}
use intelligent_trading_syst.Validators.{is_valid_symbol, is_symbol_char}
use intelligent_trading_syst.Orders.Examples.{manager}
use intelligent_trading_syst.Portfolio.Examples.{btc, book}
use intelligent_trading_syst.Paper.State.{PaperGateway, resolve_fill_price, last_price}
use intelligent_trading_syst.Paper.Examples.{gateway, sale}
use intelligent_trading_syst.Paper.Send.{
  send_order, send_numbered, send_valid, fill_order, stamp_fill, slipped_price, capped_quantity,
}
use intelligent_trading_syst.Gateways.{paper_gateway, paper_send}
use intelligent_trading_syst.Kill.Switch
use intelligent_trading_syst.Kill.Switch.{KillSwitch, activate}
use intelligent_trading_syst.Engine.Submit.{Engine, submit}
use intelligent_trading_syst.Engine.Updates.{Push, apply_order_update, on_order_update}
use intelligent_trading_syst.Engine.Desk.{set_kill_switch, sync_positions}
use intelligent_trading_syst.Engine.Halt.{submit_all, refused, activate-blocks}
use intelligent_trading_syst.Engine.Booking.{MovesTogether, on_order_update-MovesTogether}
use intelligent_trading_syst.Engine.Rest.{submit-MovesTogether, paper_gateway-IsLawful}
use intelligent_trading_syst.Engine.Replay.{apply_order_update-twice}
use intelligent_trading_syst.Engine.Sync.{overlaid, sync_positions-overlaid}

abbrev pub engine : Engine PaperGateway
engine = record {
  gateway = some gateway;
  kill_switch = some Switch.init;
  order_mgr = record manager { max_tracked_orders = 10 };
  portfolio = book;
  event_bus = true;
  events = [];
  order_total = [];
  orders_filled = [];
}

abbrev push : ℤ → String → Push
push filled status = record {
  id = "b";
  status = status;
  filled = filled;
  average = pos 100;
  fee_cost = some (pos 2);
}

apply_order_update-twice_example :
    apply_order_update (push (pos 40) "open") (apply_order_update (push (pos 40) "open") engine)
    ≡ apply_order_update (push (pos 40) "open") engine
apply_order_update-twice_example = apply_order_update-twice (push (pos 40) "open") engine

on_order_update-MovesTogether_example :
    MovesTogether "BTC/USDT" engine
      (on_order_update (push (pos 40) "open" ∷ push (pos 60) "closed" ∷ []) engine)
on_order_update-MovesTogether_example =
    on_order_update-MovesTogether "BTC/USDT" (push (pos 40) "open" ∷ push (pos 60) "closed" ∷ [])
      engine

next_id : (paper_gateway.send_order 7 (sale (pos 5)) gateway).exchange_id ≡ some "paper-5"
unfolding paper_gateway paper_send send_order send_numbered send_valid fill_order stamp_fill
    resolve_fill_price last_price slipped_price lookup capped_quantity show is_valid_symbol
    is_symbol_char contains
next_id = refl

fresh_id : (oid : String) → some "paper-5" ≡ some oid → lookup oid engine.order_mgr.orders ≡ none
unfolding lookup
fresh_id oid h =
    let name : "paper-5" ≡ oid = ground (arith, h) in
    subst (λ t. lookup t engine.order_mgr.orders ≡ none) name refl

submit-MovesTogether_example :
    (answer : Engine PaperGateway × Order) × (submit paper_gateway 7 (sale (pos 5)) engine
      ≡ some answer)
    × MovesTogether "BTC/USDT" engine answer.0
unfolding lookup paper_gateway paper_send send_order
submit-MovesTogether_example =
    submit-MovesTogether paper_gateway paper_gateway-IsLawful "BTC/USDT" 7 (sale (pos 5)) gateway
      engine refl refl (λ oid answered. fresh_id oid (sym next_id ∙ answered)) refl

activate-blocks_example :
    let halted =
      set_kill_switch (some (activate paper_gateway 3 "drawdown" Switch.init gateway).0) engine in
    submit_all paper_gateway 7 (sale (pos 5) ∷ sale (pos 6) ∷ []) halted
    ≡ some (halted, refused (sale (pos 5)) ∷ refused (sale (pos 6)) ∷ [])
activate-blocks_example =
    activate-blocks paper_gateway 3 7 "drawdown" Switch.init gateway gateway
      (sale (pos 5) ∷ sale (pos 6) ∷ []) engine refl

abbrev reported : Dict Position
reported = ("BTC/USDT", btc) ∷ []

sync_positions-overlaid_example :
    let synced = sync_positions paper_gateway 7 engine in
    ((paper_gateway.query_positions gateway).1 ≡ none
      → (synced.1 ≡ false) × (synced.0.portfolio ≡ book))
    × ((paper_gateway.query_positions gateway).1 ≡ some (values reported)
        → (synced.1 ≡ true)
          × ((s : String)
              → lookup s synced.0.portfolio.positions ≡ overlaid s reported book.positions))
unfolding lookup
sync_positions-overlaid_example =
    sync_positions-overlaid paper_gateway 7 gateway reported engine refl (refl, tt) (refl, tt)
