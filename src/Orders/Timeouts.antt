-- ===== src/Orders/Timeouts.antt =====
-- `check_timeouts`: what one pass over the pending ledger does to each order and timer.
use intelligent_trading_syst.Base.{
  Distinct, refl, none, some, ◌==◌, Dict, if◌then◌else◌, leb, ◌+◌, ℕ, Option, List, [], ◌∷◌, ◌≡◌,
  Bool, true, false, String, lookup, arith, eq_iff, lookup-insert, lookup-erase,
}
use intelligent_trading_syst.Models.{Order, OrderStatus}
use intelligent_trading_syst.Orders.{time_out, timeout_loop, check_timeouts, OrderManager}
use intelligent_trading_syst.Orders.Lifecycle.{IsConsistent}

time_out-IsConsistent :
    (oid : String) (om : OrderManager) → IsConsistent om → IsConsistent (time_out oid om).0
unfolding time_out
time_out-IsConsistent oid om h =
    λ j t. grind (arith, h j, eq_iff oid j, lookup-insert, lookup-erase)

unless_early-IsConsistent :
    (early : Bool) (oid : String) (om : OrderManager)
    → IsConsistent om
    → IsConsistent (if early then om else (time_out oid om).0)
unless_early-IsConsistent true oid om h = h
unless_early-IsConsistent false oid om h = time_out-IsConsistent oid om h

timeout_loop-IsConsistent :
    (now : ℕ) (entries : Dict ℕ) (out : List (String × String)) (om : OrderManager)
    → IsConsistent om
    → IsConsistent (timeout_loop now entries out om).0
unfolding timeout_loop
timeout_loop-IsConsistent now [] out om h = h
timeout_loop-IsConsistent now ((oid, ts) ∷ entries) out om h =
    timeout_loop-IsConsistent now entries _ _
      (unless_early-IsConsistent (leb now (ts + om.timeout)) oid om h)

pub check_timeouts-IsConsistent :
    (now : ℕ) (om : OrderManager) → IsConsistent om → IsConsistent (check_timeouts now om).0
unfolding check_timeouts
check_timeouts-IsConsistent now om h = timeout_loop-IsConsistent now om.pending [] om h

-- The copy of a tracked order that a timeout leaves behind.
abbrev pub as_cancelled : Option Order → Option Order
as_cancelled none = none
as_cancelled (some order) = some (record order { status = OrderStatus.cancelled })

time_out-orders :
    (oid j : String) (om : OrderManager)
    → lookup j (time_out oid om).0.orders
      ≡ (if oid == j then as_cancelled (lookup j om.orders) else lookup j om.orders)
unfolding time_out
time_out-orders oid j om = grind (arith, eq_iff oid j, lookup-insert)

time_out-pending :
    (oid j : String) (om : OrderManager)
    → lookup j (time_out oid om).0.pending ≡ (if oid == j then none else lookup j om.pending)
unfolding time_out
time_out-pending oid j om = grind (arith, lookup-erase)

time_out-timeout : (oid : String) (om : OrderManager) → (time_out oid om).0.timeout ≡ om.timeout
unfolding time_out
time_out-timeout oid om = ground arith

-- What one pass leaves of an id, by its timer.
abbrev pub Expiry : ℕ → Option ℕ → String → OrderManager → OrderManager → Type 0
Expiry now none oid om om' =
    (lookup oid om'.orders ≡ lookup oid om.orders)
    × (lookup oid om'.pending ≡ lookup oid om.pending)
Expiry now (some ts) oid om om' =
    (lookup oid om'.orders ≡ (
      if leb now (ts + om.timeout)
      then lookup oid om.orders
      else as_cancelled (lookup oid om.orders)))
    × (lookup oid om'.pending ≡ (if leb now (ts + om.timeout) then lookup oid om.pending else none))

timeout_loop-Expiry :
    (now : ℕ) (entries : Dict ℕ) (out : List (String × String)) (om : OrderManager) (oid : String)
    → Distinct entries
    → Expiry now (lookup oid entries) oid om (timeout_loop now entries out om).0
unfolding timeout_loop lookup
timeout_loop-Expiry now [] out om oid d = (refl, refl)
timeout_loop-Expiry now ((k, ts) ∷ entries) out om oid d = ground (
  arith,
  eq_iff k oid,
  time_out-orders k oid om,
  time_out-pending k oid om,
  time_out-timeout k om,
  timeout_loop-Expiry now entries
      (if leb now (ts + om.timeout) then out else (k, (time_out k om).1) ∷ out)
      (if leb now (ts + om.timeout) then om else (time_out k om).0) oid d.1,
)

-- A pass of `check_timeouts` cancels exactly the orders whose timer is overdue, takes their
-- timers away, and leaves every other order and timer as it was.
pub check_timeouts-Expiry :
    (now : ℕ) (om : OrderManager) (oid : String)
    → Distinct om.pending
    → Expiry now (lookup oid om.pending) oid om (check_timeouts now om).0
unfolding check_timeouts
check_timeouts-Expiry now om oid d = timeout_loop-Expiry now om.pending [] om oid d
