-- ===== src/Recon/Examples.antt =====
-- Ghost positions and reconciliation runs: tests and instances of the theorems.
use intelligent_trading_syst.Base.{
  ◌≡◌, refl, not, ◌&&◌, none, some, [], ◌∷◌, lookup, insert, contains, member, add, strip, is_space,
  negsuc, pos, ◌-ℤ◌, true, false, ◌+ℤ◌, if◌then◌else◌, List,
}
use intelligent_trading_syst.Models.{Position}
use intelligent_trading_syst.Portfolio.Examples.{btc}
use intelligent_trading_syst.Kill.Pauses.{strip_all}
use intelligent_trading_syst.Recon.Ghosts.{find_ghost_positions}
use intelligent_trading_syst.Recon.Discrepancies.{
  discrepancy_set, max_severity_of, max_from, severity_score, relative_severity,
  has_critical_issues, passed, is_completed,
}
use intelligent_trading_syst.Recon.Daily.{
  OpenOrder, Reply, ReconGateway, ReconciliationEngine, local_positions, exchange_entries,
  position_entry, all_symbols, keys_beyond, compare_symbols, compare_symbol, mismatch,
}
use intelligent_trading_syst.Recon.Orphans.{
  detect_orphan_orders, orphans_from, orphans_in, local_order_ids,
}
use intelligent_trading_syst.Recon.Reports.{
  run_daily_reconciliation, capture_local_snapshot, capture_exchange_snapshot, compare_snapshots,
  conclude, emit, handle_significant_drift,
}
use intelligent_trading_syst.Recon.Compare.{
  is_reported, tolerates, tolerates_either, held_amount, last_amount,
}
use intelligent_trading_syst.Recon.Agreement.{run-is_reported, passed-tolerates}
use intelligent_trading_syst.Recon.Partition.{is_shown, shown_quantity, find_ghost_positions-exact}

abbrev positions : List Position
positions = btc ∷ record btc { symbol = "ETH/USDT"; quantity = negsuc 6 } ∷ []

-- A short that no strategy tracks is a ghost, and a tracked symbol without a position is missing.
ghost_run :
    let report = find_ghost_positions (" BTC/USDT" ∷ "SOL/USDT" ∷ []) positions 1 in
    (report.ghosts ≡ ("ETH/USDT", negsuc 6) ∷ []) × (report.missing_on_exchange ≡ "SOL/USDT" ∷ [])
unfolding find_ghost_positions lookup insert contains member strip_all add strip is_space ◌+ℤ◌
ghost_run = (refl, refl)

find_ghost_positions-exact_example :
    let report = find_ghost_positions (" BTC/USDT" ∷ []) positions 1 in
    let named = member "ETH/USDT" (strip_all (" BTC/USDT" ∷ [])) in
    let shown = is_shown 1 "ETH/USDT" positions in
    (lookup "ETH/USDT" report.ghosts
      ≡ (if shown && not named then some (shown_quantity 1 "ETH/USDT" positions) else none))
    × (member "ETH/USDT" report.missing_on_exchange ≡ (named && not shown))
find_ghost_positions-exact_example =
    find_ghost_positions-exact (" BTC/USDT" ∷ []) positions 1 "ETH/USDT"

-- An exchange that answers with the same positions and orders every time.
abbrev orders : List OpenOrder
orders = record { id = "x1"; filled_amount = pos 2; timestamp = 1000 } ∷ []

abbrev pub exchange : List Position → ReconGateway Unit
exchange shown = record {
  query_positions = λ gw. (gw, Reply.ok shown);
  query_open_orders = λ symbol gw. (gw, Reply.ok orders);
}

abbrev engine : ReconciliationEngine
engine = record {
  drift_threshold_bps = 100;
  order_staleness_threshold = 300;
  portfolio = ("BTC/USDT", btc) ∷ [];
  order_manager = none;
  sinks = record { alert_error = none; event_error = none; report_error = none };
}

-- A short that the book does not have and a stale order are found, and the run does not pass.
failing_run :
    let report = (run_daily_reconciliation (exchange positions) 1301 "RECON-1" engine tt).report in
    (report.discrepancies.total_discrepancies ≡ 2) × (passed report ≡ false)
unfolding run_daily_reconciliation capture_local_snapshot capture_exchange_snapshot
    compare_snapshots conclude emit handle_significant_drift local_positions exchange_entries
    position_entry all_symbols keys_beyond compare_symbols compare_symbol mismatch
    detect_orphan_orders orphans_from orphans_in local_order_ids discrepancy_set max_severity_of
    max_from severity_score relative_severity has_critical_issues passed lookup insert contains
    member ◌-ℤ◌
failing_run = (refl, refl)

-- A timestamp in milliseconds, as ccxt gives it, makes no order stale.
milliseconds_run :
    orphans_in 1700000000 300 "BTC/USDT" []
      (record { id = "x1"; filled_amount = pos 0; timestamp = 1600000000000 } ∷ [])
    ≡ []
unfolding orphans_in member
milliseconds_run = refl

completes :
    is_completed
      (run_daily_reconciliation (exchange positions) 1301 "RECON-1" engine tt).report.status
    ≡ true
unfolding run_daily_reconciliation capture_local_snapshot capture_exchange_snapshot
    compare_snapshots conclude emit handle_significant_drift local_positions exchange_entries
    position_entry all_symbols keys_beyond compare_symbols compare_symbol mismatch
    detect_orphan_orders orphans_from orphans_in local_order_ids discrepancy_set max_severity_of
    max_from severity_score relative_severity lookup insert contains member ◌-ℤ◌
completes = refl

run-is_reported_example :
    is_reported "ETH/USDT"
      (run_daily_reconciliation
        (exchange positions)
        1301
        "RECON-1"
        engine
        tt).report.discrepancies.items
    ≡ not (
        tolerates 100 10000
          (held_amount "ETH/USDT" engine.portfolio)
          (last_amount "ETH/USDT" none positions))
run-is_reported_example =
    run-is_reported (exchange positions) 1301 engine "RECON-1" tt positions "ETH/USDT" refl
      completes

abbrev pub quiet : ReconciliationEngine
quiet = record engine { order_staleness_threshold = 1000000 }

quiet_passes :
    passed (run_daily_reconciliation (exchange (btc ∷ [])) 1301 "RECON-1" quiet tt).report ≡ true
unfolding run_daily_reconciliation capture_local_snapshot capture_exchange_snapshot
    compare_snapshots conclude emit handle_significant_drift local_positions exchange_entries
    position_entry all_symbols keys_beyond compare_symbols compare_symbol mismatch
    detect_orphan_orders orphans_from orphans_in local_order_ids discrepancy_set max_severity_of
    has_critical_issues passed lookup insert contains member ◌-ℤ◌
quiet_passes = refl

passed-tolerates_example :
    tolerates_either 100
      (held_amount "BTC/USDT" quiet.portfolio)
      (last_amount "BTC/USDT" none (btc ∷ []))
    ≡ true
passed-tolerates_example =
    passed-tolerates (exchange (btc ∷ [])) 1301 quiet "RECON-1" tt (btc ∷ []) "BTC/USDT" refl
      quiet_passes
