-- ===== src/Recon/Orphans.antt =====
-- The orphan orders of a reconciliation run (quantflow/reconciliation/engine.py): orders that are
-- open on the exchange and unknown here, once they are stale.
use intelligent_trading_syst.Base.{
  ℕ, ◌+◌, Bool, not, ◌&&◌, none, some, List, [], ◌∷◌, ◌++◌, String, ◌==◌, keys, member, add, ltb,
  if◌then◌else◌,
}
use intelligent_trading_syst.Models.{Order}
use intelligent_trading_syst.Recon.Discrepancies.{DiscrepancyType, Discrepancy}
use intelligent_trading_syst.Recon.Daily.{
  ok, gateway_error, other_error, OpenOrder, Reply, ReconGateway, ReconciliationEngine,
}

-- The ids that `local_orders_by_symbol` holds for the symbol.
unfoldable pub ids_of : String → List Order → List String
ids_of symbol [] = []
ids_of symbol (order ∷ orders) =
    let rest = ids_of symbol orders in
    if order.symbol == symbol then add order.order_id rest else rest

-- The portfolio has no `get_pending_order_ids`, so without an order manager the set is empty.
unfoldable pub local_order_ids : ReconciliationEngine → String → List String
unfolding ids_of
local_order_ids engine symbol = elim engine.order_manager [
  | none ↦ []
  | some orders ↦ ids_of symbol orders
]

-- The tests of the inner loop; `age_seconds > threshold`, where the age may be negative.
abbrev pub is_orphan : ℕ → ℕ → List String → OpenOrder → Bool
is_orphan now threshold ids order =
    not (member order.id ids) && ltb (threshold + order.timestamp) now

unfoldable pub orphans_in : ℕ → ℕ → String → List String → List OpenOrder → List Discrepancy
orphans_in now threshold symbol ids [] = []
orphans_in now threshold symbol ids (order ∷ orders) =
    let rest = orphans_in now threshold symbol ids orders in
    if is_orphan now threshold ids order
    then record {
      type = DiscrepancyType.orphan_order_exchange;
      symbol = symbol;
      local_value = none;
      exchange_value = some order.filled_amount;
    }
      ∷ rest
    else rest

-- The loop over the symbols. A `GatewayError` ends it with what was found before; another
-- exception leaves the method.
unfoldable pub orphans_from :
    {G : Type 0}
    → ReconGateway G
    → ℕ
    → ReconciliationEngine
    → List String
    → List Discrepancy
    → G
    → G × Reply (List Discrepancy)
unfolding orphans_in
orphans_from ops now engine [] found gw = (gw, Reply.ok found)
orphans_from ops now engine (symbol ∷ symbols) found gw =
    let reply = ops.query_open_orders symbol gw in
    elim reply.1 [
      | ok orders ↦
          orphans_from ops now engine symbols
            (found
              ++ orphans_in now engine.order_staleness_threshold symbol
                  (local_order_ids engine symbol) orders)
            reply.0
      | gateway_error error ↦ (reply.0, Reply.ok found)
      | other_error error ↦ (reply.0, Reply.other_error error)
    ]

unfoldable pub detect_orphan_orders :
    {G : Type 0} → ReconGateway G → ℕ → ReconciliationEngine → G → G × Reply (List Discrepancy)
unfolding orphans_from
detect_orphan_orders ops now engine gw = orphans_from ops now engine (keys engine.portfolio) [] gw
