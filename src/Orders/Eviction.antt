-- ===== src/Orders/Eviction.antt =====
-- The retention cap of the order manager: what `_evict_terminal_if_needed` drops and keeps.
use intelligent_trading_syst.Base.{
  ◌≤◌, member, ℕ, ◌≡◌, refl, ◌⊎◌, inr, Bool, true, false, not, none, some, List, [], ◌∷◌, String,
  Dict, lookup, erase, size, keys, arith, eq_iff, lookup-erase, if◌then◌else◌,
}
use intelligent_trading_syst.Models.{Order, is_terminal}
use intelligent_trading_syst.Orders.{
  OrderManager, is_terminal_at, evict_loop, evict_terminal_if_needed,
}

-- An id that names a tracked order in no final state.
abbrev pub is_live_at : String → Dict Order → Bool
is_live_at oid orders = elim (lookup oid orders) [
  | none ↦ false
  | some order ↦ not (is_terminal order.status)
]

abbrev step : String → Dict Order → Dict Order
step k orders = if is_terminal_at k orders then erase k orders else orders

step-live :
    (k oid : String) (orders : Dict Order)
    → is_live_at oid orders ≡ true
    → lookup oid (step k orders) ≡ lookup oid orders
unfolding is_terminal_at
step-live k oid orders live = ground (arith, lookup-erase k oid orders, eq_iff k oid)

evict_loop-live :
    (cap : ℕ) (ks : List String) (oid : String) (orders : Dict Order)
    → is_live_at oid orders ≡ true
    → lookup oid (evict_loop cap ks orders) ≡ lookup oid orders
unfolding evict_loop
evict_loop-live cap [] oid orders live = refl
evict_loop-live cap (k ∷ ks) oid orders live =
    ground (arith, step-live k oid orders live, evict_loop-live cap ks oid (step k orders))

-- what is still there was there before, unchanged
evict_loop-sub :
    (cap : ℕ) (ks : List String) (oid : String) (orders : Dict Order)
    → (lookup oid (evict_loop cap ks orders) ≡ none)
      ⊎ (lookup oid (evict_loop cap ks orders) ≡ lookup oid orders)
unfolding evict_loop
evict_loop-sub cap [] oid orders = inr refl
evict_loop-sub cap (k ∷ ks) oid orders =
    ground (arith, lookup-erase k oid orders, evict_loop-sub cap ks oid (step k orders))

evict_loop-done :
    (cap : ℕ) (ks : List String) (oid : String) (orders : Dict Order)
    → member oid ks ≡ true
    → is_terminal_at oid (evict_loop cap ks orders) ≡ true
    → size (evict_loop cap ks orders) ≤ cap
unfolding evict_loop is_terminal_at member
evict_loop-done cap [] oid orders m t = cc
evict_loop-done cap (k ∷ ks) oid orders m t = ground (
  arith,
  eq_iff k oid,
  lookup-erase k oid orders,
  evict_loop-sub cap ks oid (step k orders),
  evict_loop-done cap ks oid (step k orders),
)

member-keys :
    (oid : String) (orders : Dict Order)
    → is_terminal_at oid orders ≡ true
    → member oid (keys orders) ≡ true
unfolding is_terminal_at lookup member
member-keys oid [] t = t
member-keys oid ((k, o) ∷ orders) t = ground (arith, member-keys oid orders)

-- An active order is never evicted, and it stays as it was.
pub evict-live :
    (om : OrderManager) (oid : String)
    → is_live_at oid om.orders ≡ true
    → lookup oid (evict_terminal_if_needed om).orders ≡ lookup oid om.orders
unfolding evict_terminal_if_needed
evict-live om oid live =
    ground (arith, evict_loop-live om.max_tracked_orders (keys om.orders) oid om.orders)

-- After an eviction pass a final order is left only if the store is within the cap.
pub evict_bounded :
    (om : OrderManager) (oid : String)
    → is_terminal_at oid (evict_terminal_if_needed om).orders ≡ true
    → size (evict_terminal_if_needed om).orders ≤ om.max_tracked_orders
unfolding evict_terminal_if_needed is_terminal_at
evict_bounded om oid t = ground (
  arith,
  member-keys oid om.orders,
  evict_loop-sub om.max_tracked_orders (keys om.orders) oid om.orders,
  evict_loop-done om.max_tracked_orders (keys om.orders) oid om.orders,
)

-- An eviction pass touches no other field, and brings no order in.
pub evict-pending : (om : OrderManager) → (evict_terminal_if_needed om).pending ≡ om.pending
unfolding evict_terminal_if_needed
evict-pending om = ground arith

pub evict-sub :
    (om : OrderManager) (oid : String)
    → (lookup oid (evict_terminal_if_needed om).orders ≡ none)
      ⊎ (lookup oid (evict_terminal_if_needed om).orders ≡ lookup oid om.orders)
unfolding evict_terminal_if_needed
evict-sub om oid =
    ground (arith, evict_loop-sub om.max_tracked_orders (keys om.orders) oid om.orders)
