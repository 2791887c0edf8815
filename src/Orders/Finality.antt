-- ===== src/Orders/Finality.antt =====
-- Sequences of method calls on the order manager, and what they do to finished orders.
use intelligent_trading_syst.Base.{
  inr, insert-Distinct, erase-Distinct, Distinct, none, some, Dict, if◌then◌else◌, leb, ◌+◌, ℕ,
  Option, List, [], ◌∷◌, ◌≡◌, ◌≢◌, ◌⊎◌, Bool, true, false, String, lookup, arith, eq_iff,
  lookup-insert, ℤ, ==-ne,
}
use intelligent_trading_syst.Models.{is_terminal, Order, OrderRequest, OrderResult, OrderStatus}
use intelligent_trading_syst.Orders.{
  track, tracked_order, store_tracked, time_out, timeout_loop, check_timeouts, OrderManager, update,
  cancel_order,
}
use intelligent_trading_syst.Orders.Eviction.{evict-sub, evict-pending}
use intelligent_trading_syst.Orders.Lifecycle.{
  has_timer, IsConsistent, update-IsConsistent, cancel_order-IsConsistent, track-IsConsistent,
}
use intelligent_trading_syst.Orders.Timeouts.{check_timeouts-IsConsistent, check_timeouts-Expiry}

-- A call of one of the methods that change state, with the clock readings that it makes.
pub data Call : Type 0 where
  track_call : OrderRequest → Option OrderResult → ℕ → Call
  update_call : String → OrderStatus → ℤ → ℤ → ℤ → Call
  cancel_call : String → Call
  timeouts_call : ℕ → Call

unfoldable pub apply : Call → OrderManager → OrderManager
apply (track_call request result now) om = (track request result now om).0
apply (update_call oid status filled price fee) om = update oid status filled price fee om
apply (cancel_call oid) om = (cancel_order oid om).0
apply (timeouts_call now) om = (check_timeouts now om).0

unfoldable pub run : List Call → OrderManager → OrderManager
unfolding apply
run [] om = om
run (call ∷ calls) om = run calls (apply call om)

-- Ids are not reused: a `track` names no id with a running timer, and not the order in question.
abbrev pub IsFresh : String → Call → OrderManager → Type 0
IsFresh j (track_call request result now) om =
    let oid = (track request result now om).1.order_id in (has_timer oid om ≡ false) × (oid ≢ j)
IsFresh j _ om = Unit

abbrev pub AllFresh : String → List Call → OrderManager → Type 0
AllFresh j [] om = Unit
AllFresh j (call ∷ calls) om = IsFresh j call om × AllFresh j calls (apply call om)

pub record IsSound (om : OrderManager) : Type 0 where
  pub consistent : IsConsistent om
  pub distinct : Distinct om.pending

track-Distinct :
    (request : OrderRequest) (result : Option OrderResult) (now : ℕ) (om : OrderManager)
    → Distinct om.pending
    → Distinct (track request result now om).0.pending
unfolding track store_tracked
track-Distinct request result now om d = grind (arith, evict-pending, insert-Distinct)

update-Distinct :
    (oid : String) (status : OrderStatus) (filled price fee : ℤ) (om : OrderManager)
    → Distinct om.pending
    → Distinct (update oid status filled price fee om).pending
unfolding update
update-Distinct oid status filled price fee om d = ground (arith, erase-Distinct oid om.pending d)

cancel_order-Distinct :
    (oid : String) (om : OrderManager)
    → Distinct om.pending
    → Distinct (cancel_order oid om).0.pending
unfolding cancel_order
cancel_order-Distinct oid om d = ground (arith, erase-Distinct oid om.pending d)

time_out-Distinct :
    (oid : String) (om : OrderManager) → Distinct om.pending → Distinct (time_out oid om).0.pending
unfolding time_out
time_out-Distinct oid om d = ground (arith, erase-Distinct oid om.pending d)

unless_early-Distinct :
    (early : Bool) (oid : String) (om : OrderManager)
    → Distinct om.pending
    → Distinct (if early then om else (time_out oid om).0).pending
unless_early-Distinct true oid om d = d
unless_early-Distinct false oid om d = time_out-Distinct oid om d

timeout_loop-Distinct :
    (now : ℕ) (entries : Dict ℕ) (out : List (String × String)) (om : OrderManager)
    → Distinct om.pending
    → Distinct (timeout_loop now entries out om).0.pending
unfolding timeout_loop
timeout_loop-Distinct now [] out om d = d
timeout_loop-Distinct now ((oid, ts) ∷ entries) out om d =
    timeout_loop-Distinct now entries _ _
      (unless_early-Distinct (leb now (ts + om.timeout)) oid om d)

apply-IsSound :
    (j : String) (call : Call) (om : OrderManager)
    → IsFresh j call om
    → IsSound om
    → IsSound (apply call om)
unfolding apply check_timeouts
apply-IsSound j (track_call request result now) om fresh s = record {
  consistent = track-IsConsistent request result now om fresh.0 s.consistent;
  distinct = track-Distinct request result now om s.distinct;
}
apply-IsSound j (update_call oid status filled price fee) om fresh s = record {
  consistent = update-IsConsistent oid status filled price fee om s.consistent;
  distinct = update-Distinct oid status filled price fee om s.distinct;
}
apply-IsSound j (cancel_call oid) om fresh s = record {
  consistent = cancel_order-IsConsistent oid om s.consistent;
  distinct = cancel_order-Distinct oid om s.distinct;
}
apply-IsSound j (timeouts_call now) om fresh s = record {
  consistent = check_timeouts-IsConsistent now om s.consistent;
  distinct = timeout_loop-Distinct now om.pending [] om s.distinct;
}

-- The order is as it finished, or it has been evicted.
abbrev pub StillFinal : String → Order → OrderManager → Type 0
StillFinal j o om = (lookup j om.orders ≡ none) ⊎ (lookup j om.orders ≡ some o)

module _ (j : String) (o : Order) (final : is_terminal o.status ≡ true) (om : OrderManager) where
  track-StillFinal :
      (request : OrderRequest) (result : Option OrderResult) (now : ℕ)
      → IsFresh j (track_call request result now) om
      → StillFinal j o om
      → StillFinal j o (track request result now om).0
  unfolding track store_tracked
  track-StillFinal request result now fresh s =
      let t = tracked_order request result now in
      grind (arith, evict-sub, lookup-insert, ==-ne t.0.order_id j)

  update-StillFinal :
      (oid : String) (status : OrderStatus) (filled price fee : ℤ)
      → StillFinal j o om
      → StillFinal j o (update oid status filled price fee om)
  unfolding update
  update-StillFinal oid status filled price fee s = grind (arith, eq_iff oid j, lookup-insert)

  cancel-StillFinal : (oid : String) → StillFinal j o om → StillFinal j o (cancel_order oid om).0
  unfolding cancel_order
  cancel-StillFinal oid s = grind (arith, eq_iff oid j, lookup-insert)

  timeouts-StillFinal :
      (now : ℕ) → IsSound om → StillFinal j o om → StillFinal j o (check_timeouts now om).0
  timeouts-StillFinal now sound s =
      ground (arith, sound.consistent j, check_timeouts-Expiry now om j sound.distinct)

  apply-StillFinal :
      (call : Call)
      → IsFresh j call om
      → IsSound om
      → StillFinal j o om
      → StillFinal j o (apply call om)
  unfolding apply
  apply-StillFinal (track_call request result now) fresh sound s =
      track-StillFinal request result now fresh s
  apply-StillFinal (update_call oid status filled price fee) fresh sound s =
      update-StillFinal oid status filled price fee s
  apply-StillFinal (cancel_call oid) fresh sound s = cancel-StillFinal oid s
  apply-StillFinal (timeouts_call now) fresh sound s = timeouts-StillFinal now sound s

run-StillFinal :
    (j : String) (o : Order)
    → is_terminal o.status ≡ true
    → (calls : List Call) (om : OrderManager) → IsSound om
    → AllFresh j calls om
    → StillFinal j o om
    → IsSound (run calls om) × StillFinal j o (run calls om)
unfolding run
run-StillFinal j o final [] om sound fresh s = (sound, s)
run-StillFinal j o final (call ∷ calls) om sound fresh s =
    run-StillFinal j o final calls (apply call om) (apply-IsSound j call om fresh.0 sound) fresh.1
      (apply-StillFinal j o final om call fresh.0 sound s)

-- From a sound manager, after any sequence of `track`, `update`, `cancel_order` and
-- `check_timeouts` calls that reuse no id, the manager is sound again, and an order that had
-- finished is unchanged or has been evicted: no late callback, cancel or timeout changes it.
pub run_finality :
    (j : String) (o : Order) (calls : List Call) (om : OrderManager)
    → is_terminal o.status ≡ true
    → lookup j om.orders ≡ some o
    → IsSound om
    → AllFresh j calls om
    → IsSound (run calls om)
      × ((lookup j (run calls om).orders ≡ none) ⊎ (lookup j (run calls om).orders ≡ some o))
run_finality j o calls om final found sound fresh =
    run-StillFinal j o final calls om sound fresh (inr found)
