-- ===== src/Orders/Examples.antt =====
-- Order manager: test data, runs of the definitions and instances of the theorems.
use intelligent_trading_syst.Base.{
  ◌≡◌, refl, ◌⊎◌, false, none, some, List, [], ◌∷◌, String, lookup, arith, eq_iff, pos, insert,
}
use intelligent_trading_syst.Models.{OrderSide, Order, OrderRequest, OrderResult, OrderStatus}
use intelligent_trading_syst.Orders.{OrderManager, is_terminal_at, track, update, check_timeouts}
use intelligent_trading_syst.Orders.Timeouts.{Expiry, check_timeouts-Expiry}
use intelligent_trading_syst.Orders.Finality.{
  Call, track_call, update_call, cancel_call, timeouts_call, run, IsSound, run_finality,
}

abbrev request : OrderRequest
request = record {
  symbol = "BTC/USDT";
  side = OrderSide.buy;
  order_type = "limit";
  quantity = pos 100;
  price = some (pos 7);
  strategy_id = "trend";
  params = [];
}

abbrev order : String → OrderStatus → Order
order oid status = record {
  order_id = oid;
  symbol = "BTC/USDT";
  side = OrderSide.buy;
  order_type = "limit";
  quantity = pos 100;
  price = some (pos 7);
  status = status;
  filled_quantity = pos 0;
  filled_price = pos 0;
  fee = pos 0;
  strategy_id = "trend";
  created_at = 0;
  applied_filled_qty = pos 0;
  params = [];
}

abbrev result : String → OrderStatus → OrderResult
result oid status = record {
  order_id = oid;
  status = status;
  symbol = "BTC/USDT";
  side = OrderSide.buy;
  filled_quantity = pos 0;
  average_price = pos 0;
  fee = pos 0;
  error = "";
}

-- One live order with a timer, one that was filled, at a cap of two orders.
abbrev pub manager : OrderManager
manager = record {
  timeout = 30000;
  max_tracked_orders = 2;
  orders = ("a", order "a" OrderStatus.filled) ∷ ("b", order "b" OrderStatus.submitted) ∷ [];
  pending = ("b", 1000) ∷ [];
  timed_out_metrics = [];
}

abbrev calls : List Call
calls =
    update_call "a" OrderStatus.cancelled (pos 0) (pos 0) (pos 0)
    ∷ track_call request (some (result "c" OrderStatus.submitted)) 2000
    ∷ timeouts_call 31001
    ∷ cancel_call "c"
    ∷ []

update_partial :
    let om = update "b" OrderStatus.filled (pos 40) (pos 7) (pos 1) manager in
    (is_terminal_at "b" om.orders ≡ false) × (lookup "b" om.pending ≡ some 1000)
unfolding update is_terminal_at lookup insert
update_partial = (refl, refl)

timeouts_run : (check_timeouts 31001 manager).1 ≡ ("b", "BTC/USDT") ∷ []
unfolding check_timeouts lookup
timeouts_run = refl

manager-IsSound : IsSound manager
unfolding lookup
manager-IsSound = record {
  consistent = λ j t. ground (arith, eq_iff "b" j, eq_iff "a" j, eq_iff "a" "b");
  distinct = (refl, tt);
}

check_timeouts-Expiry_example :
    Expiry 31001 (lookup "b" manager.pending) "b" manager (check_timeouts 31001 manager).0
unfolding lookup
check_timeouts-Expiry_example = check_timeouts-Expiry 31001 manager "b" (refl, tt)

run_finality_example :
    IsSound (run calls manager)
    × ((lookup "a" (run calls manager).orders ≡ none)
        ⊎ (lookup "a" (run calls manager).orders ≡ some (order "a" OrderStatus.filled)))
unfolding lookup run update track
run_finality_example =
    run_finality "a" (order "a" OrderStatus.filled) calls manager refl refl manager-IsSound
      (tt, ((refl, ground (arith, eq_iff "c" "a")), (tt, (tt, tt))))
