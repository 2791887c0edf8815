-- ===== src/Recon/Agreement.antt =====
-- What a reconciliation run says of each symbol.
use intelligent_trading_syst.Base.{
  ℕ, ◌≡◌, refl, sym, ap, ◌∙◌, true, false, not, none, List, [], ◌∷◌, ◌++◌, String, keys, arith, inl,
  inr, ◌⊎◌,
}
use intelligent_trading_syst.Models.{Position}
use intelligent_trading_syst.Recon.Discrepancies.{
  Discrepancy, DiscrepancySet, discrepancy_set, is_below, critical, is_completed,
  has_critical_issues, passed,
}
use intelligent_trading_syst.Recon.Compare.{
  held_amount, last_amount, tolerates, tolerates_either, is_reported, is_reported-append,
  items-is_reported, items-agree,
}
use intelligent_trading_syst.Recon.Daily.{
  ok, gateway_error, other_error, Reply, OpenOrder, ReconGateway, ReconciliationEngine,
  local_positions, exchange_entries, all_symbols, compare_symbols,
}
use intelligent_trading_syst.Recon.Orphans.{
  local_order_ids, orphans_in, orphans_from, detect_orphan_orders,
}
use intelligent_trading_syst.Recon.Reports.{
  capture_exchange_snapshot, capture_local_snapshot, compare_snapshots, conclude,
  run_daily_reconciliation,
}

Reply-cases :
    {A : Type 0} (r : Reply A)
    → ((a : A) × (r ≡ Reply.ok a))
      ⊎ ((x : String) × ((r ≡ Reply.gateway_error x) ⊎ (r ≡ Reply.other_error x)))
Reply-cases (ok a) = inl (a, refl)
Reply-cases (gateway_error x) = inr (x, inl refl)
Reply-cases (other_error x) = inr (x, inr refl)

-- Orphan orders are never about positions.
orphans_in-is_reported :
    (s : String) (now t : ℕ) (symbol : String) (ids : List String) (orders : List OpenOrder)
    → is_reported s (orphans_in now t symbol ids orders) ≡ false
unfolding orphans_in
orphans_in-is_reported s now t symbol ids [] = refl
orphans_in-is_reported s now t symbol ids (order ∷ orders) =
    ground (arith, orphans_in-is_reported s now t symbol ids orders)

module _ {G : Type 0} (ops : ReconGateway G) (now : ℕ) (engine : ReconciliationEngine) where
  orphans_from-is_reported :
      (s : String) (symbols : List String) (found orders : List Discrepancy) (gw : G)
      → is_reported s found ≡ false
      → (orphans_from ops now engine symbols found gw).1 ≡ Reply.ok orders
      → is_reported s orders ≡ false
  unfolding orphans_from
  orphans_from-is_reported s [] found orders gw h k = ground arith
  orphans_from-is_reported s (symbol ∷ symbols) found orders gw h k =
      let ids = local_order_ids engine symbol in
      let stale = engine.order_staleness_threshold in
      let reply = ops.query_open_orders symbol gw in
      elim (Reply-cases reply.1) [
        | inl (shown, e) ↦
            orphans_from-is_reported s symbols (found ++ orphans_in now stale symbol ids shown)
              orders reply.0
              (ground (
                arith,
                is_reported-append s found (orphans_in now stale symbol ids shown),
                orphans_in-is_reported s now stale symbol ids shown,
              ))
              (ground (arith, e))
        | inr (x, inl e) ↦ ground (arith, e)
        | inr (x, inr e) ↦ ground (arith, e)
      ]

  pub completed-found :
      (id : String) (gw : G) (ps : List Position)
      → (ops.query_positions gw).1 ≡ Reply.ok ps
      → let report = (run_daily_reconciliation ops now id engine gw).report in
        is_completed report.status ≡ true
        → let l = local_positions engine.portfolio in
          let e = exchange_entries ps [] in
          (orders : List Discrepancy) × ((detect_orphan_orders ops now engine
              (ops.query_positions gw).0).1
            ≡ Reply.ok orders)
          × (report.discrepancies
              ≡ discrepancy_set
                  (compare_symbols engine.drift_threshold_bps l e (all_symbols l e) ++ orders))
  unfolding run_daily_reconciliation capture_exchange_snapshot capture_local_snapshot
      compare_snapshots conclude
  completed-found id gw ps h done =
      elim (Reply-cases (detect_orphan_orders ops now engine (ops.query_positions gw).0).1) [
        | inl (orders, e) ↦ (orders, e, ground (arith, e, h))
        | inr (x, inl e) ↦ ground (arith, e, h)
        | inr (x, inr e) ↦ ground (arith, e, h)
      ]

  -- A completed run reports a position in a symbol if and only if one of the two books lacks the
  -- symbol, or the local amount is not zero and the last amount that the exchange shows is further
  -- from it than the drift threshold. A local amount of zero that differs from the exchange's is so
  -- never reported. The exchange answers with the positions `ps`.
  pub run-is_reported :
      (id : String) (gw : G) (ps : List Position) (s : String)
      → (ops.query_positions gw).1 ≡ Reply.ok ps
      → let report = (run_daily_reconciliation ops now id engine gw).report in
        is_completed report.status ≡ true
        → is_reported s report.discrepancies.items
          ≡ not (
              tolerates engine.drift_threshold_bps 10000
                (held_amount s engine.portfolio)
                (last_amount s none ps))
  unfolding discrepancy_set detect_orphan_orders
  run-is_reported id gw ps s h done =
      let t = engine.drift_threshold_bps in
      let l = local_positions engine.portfolio in
      let e = exchange_entries ps [] in
      let (orders, found, report) = completed-found id gw ps h done in
      ap (λ (d : DiscrepancySet). is_reported s d.items) report
      ∙ items-is_reported t engine.portfolio ps orders s (
          orphans_from-is_reported s (keys engine.portfolio) [] orders (ops.query_positions gw).0
            refl found)

-- A run that passes shows no symbol on one side only, and in each symbol with a local amount that
-- is not zero the last amount that the exchange shows is within 80% of it or within the drift
-- threshold, whichever is wider. It says nothing of the exchange's amount in a symbol with a local
-- amount of zero. The exchange answers with the positions `ps`.
pub passed-tolerates :
    {G : Type 0} (ops : ReconGateway G) (now : ℕ) (engine : ReconciliationEngine) (id : String)
    (gw : G) (ps : List Position) (s : String)
    → (ops.query_positions gw).1 ≡ Reply.ok ps
    → passed (run_daily_reconciliation ops now id engine gw).report ≡ true
    → tolerates_either engine.drift_threshold_bps
        (held_amount s engine.portfolio)
        (last_amount s none ps)
      ≡ true
unfolding passed has_critical_issues discrepancy_set
passed-tolerates ops now engine id gw ps s h done =
    let (orders, found, report) = completed-found ops now engine id gw ps h (ground arith) in
    items-agree engine.drift_threshold_bps engine.portfolio ps orders s
      (sym (ap (λ (d : DiscrepancySet). is_below critical d.max_severity) report) ∙ ground arith)
