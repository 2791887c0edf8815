-- ===== src/Session/Examples.antt =====
-- Sessions on concrete books: runs of the definitions and instances of the theorems.
use intelligent_trading_syst.Base.{
  if◌then◌else◌, ◌<◌, ◌≤◌, ◌≡◌, ◌≢◌, ◌⊎◌, refl, true, false, none, some, [], ◌∷◌, String, lookup,
  insert, contains, member, length, keep_if, erase, show, ◌+ℤ◌, ◌*ℤ◌, add, discard, strip,
  strip_left, strip_right, is_space, pos, ◌-ℤ◌, abs,
}
use intelligent_trading_syst.Models.{Order, money_epsilon}
use intelligent_trading_syst.Orders
use intelligent_trading_syst.Orders.{get_open_orders}
use intelligent_trading_syst.Portfolio
use intelligent_trading_syst.Portfolio.{
  update_position, apply_fill, pay, update_cash, refresh_drawdown, set_position,
}
use intelligent_trading_syst.Portfolio.Examples.{btc, book}
use intelligent_trading_syst.Portfolio.Pending.{reserve, confirm}
use intelligent_trading_syst.Paper.State.{PaperGateway, resolve_fill_price, last_price}
use intelligent_trading_syst.Paper.Send.{
  send_order, send_numbered, send_valid, fill_order, stamp_fill, slipped_price, capped_quantity,
}
use intelligent_trading_syst.Validators.{is_valid_symbol, is_symbol_char}
use intelligent_trading_syst.Orders.{track}
use intelligent_trading_syst.Engine.Routing.{build_order}
use intelligent_trading_syst.Gateways.{paper_gateway, paper_send}
use intelligent_trading_syst.Kill.Pauses.{empty_reasons, is_paused, add_reason, remove_reason}
use intelligent_trading_syst.Kill.Switch
use intelligent_trading_syst.Engine.Submit.{
  Engine, submit_order, submit, route, record_sent, settle_status, request_of, result_of, publish,
  settle_fill, handle_fill, delta_filled, book_fill, applied_order, announce_fill, mirror_applied,
}
use intelligent_trading_syst.Engine.Examples.{engine}
use intelligent_trading_syst.Risk.Examples.{risk, static_budget, no_tail}
use intelligent_trading_syst.Risk.Funding.{evaluate_funding_risk}
use intelligent_trading_syst.Signals.Examples.{trend, sizer}
use intelligent_trading_syst.Recon.Daily.{
  local_positions, exchange_entries, position_entry, all_symbols, keys_beyond, compare_symbols,
  compare_symbol, mismatch,
}
use intelligent_trading_syst.Recon.Discrepancies.{
  discrepancy_set, max_severity_of, max_from, severity_score, relative_severity,
}
use intelligent_trading_syst.Recon.Orphans.{
  detect_orphan_orders, orphans_from, orphans_in, local_order_ids, ids_of,
}
use intelligent_trading_syst.Recon.Reports.{
  run_daily_reconciliation, capture_local_snapshot, capture_exchange_snapshot, compare_snapshots,
  conclude, emit, handle_significant_drift,
}
use intelligent_trading_syst.Recon.Compare.{tolerates, held_amount, last_amount}
use intelligent_trading_syst.Recon.Examples.{exchange, quiet}
use intelligent_trading_syst.Session.{
  TradingSession, with_book, entry_request, submit_entry, conclude_entry, settle_pending, settle_by,
  quantity_of, process_signal, risk_decision_of, size_of, note_funding_rate,
  apply_funding_risk_gate, request_kill,
}
use intelligent_trading_syst.Session.Settled.{is_settled, kept_of, entry_of}
use intelligent_trading_syst.Session.Ledger.{submit_entry-ledger}
use intelligent_trading_syst.Session.Entries.{process_signal-halted, process_signal-gated}
use intelligent_trading_syst.Session.Recovery.{
  ReconSettings, loaded, build_snapshot, restore_positions, restore_cash, restore_from_snapshot,
  build_reconciliation_engine, verify_recovery, restore_checkpoint, recover,
}
use intelligent_trading_syst.Session.Duties.{
  release_pending, max_pending_age, release_pending-stale,
}
use intelligent_trading_syst.Portfolio.Pending.Ledger.{stale_entry}
use intelligent_trading_syst.Engine.Desk.{check_timeouts}
use intelligent_trading_syst.Session.Restored.{
  restore_from_snapshot-build_snapshot, recover-tolerates,
}

abbrev session : {G : Type 0} → Engine G → TradingSession G
session e = record {
  engine = e;
  risk_engine = risk;
  position_sizer = sizer;
  risk_pauses = empty_reasons;
  recovery_verified = true;
  strategy_win_rates = [];
  funding_risk_gate_enabled = true;
  max_funding_rate_abs = pos 0;
  funding_risk_gate_kill = true;
  last_funding_rate = [];
  kill_requests = [];
  events = [];
  alerts = [];
}

-- A rate of 0.2% is beyond the default limit of 0.1%, and a missing rate pauses too; a low rate
-- lifts the pause.
funding_run :
    let paused = note_funding_rate "BTC/USDT" (some (pos 2000)) (session engine) in
    let missing = note_funding_rate "BTC/USDT" none (session engine) in
    let lifted = note_funding_rate "BTC/USDT" (some (pos 100)) paused in
    (is_paused paused.risk_pauses ≡ true)
    × (paused.kill_requests ≡ "funding_risk_gate:abs_rate" ∷ [])
    × (is_paused missing.risk_pauses ≡ true)
    × (is_paused lifted.risk_pauses ≡ false)
unfolding note_funding_rate apply_funding_risk_gate request_kill evaluate_funding_risk is_paused
    add_reason remove_reason insert add discard strip strip_left strip_right is_space Switch.init
    member
funding_run = (refl, refl, refl, refl)

-- An entry that goes through: one order is counted, and nothing is raised.
entry_run :
    let result = submit_entry paper_gateway 7 "r1" 550 trend (session engine) in
    (length result.0.engine.order_total ≡ 1) × (result.1 ≡ false)
unfolding submit_entry conclude_entry settle_pending settle_by entry_request quantity_of
    submit_order submit build_order route Switch.init paper_gateway paper_send send_order
    send_numbered send_valid fill_order stamp_fill is_valid_symbol is_symbol_char resolve_fill_price
    last_price slipped_price capped_quantity show lookup record_sent settle_status request_of
    result_of track publish settle_fill handle_fill delta_filled book_fill applied_order
    announce_fill mirror_applied update_position refresh_drawdown apply_fill pay reserve confirm
    erase ◌-ℤ◌ ◌+ℤ◌ ◌*ℤ◌
entry_run = (refl, refl)

abbrev halted : TradingSession PaperGateway
halted = session (record engine { kill_switch = some (record Switch.init { active = true }) })

process_signal-halted_example :
    (process_signal paper_gateway 7 static_budget no_tail
      (λ returns. 0)
      (λ signal. pos 1000000)
      "r1"
      trend
      halted).0.engine
    ≡ halted.engine
unfolding lookup
process_signal-halted_example =
    process_signal-halted paper_gateway 7 static_budget no_tail (λ returns. 0)
      (λ signal. pos 1000000) "r1" trend halted refl refl

process_signal-gated_example :
    ((process_signal paper_gateway 7 static_budget no_tail
        (λ returns. 0)
        (λ signal. pos 1000000)
        "r1"
        trend
        (session engine)).0.engine
      ≡ engine)
    ⊎ ((true ≡ true)
        × (is_paused empty_reasons ≡ false)
        × ((risk_decision_of static_budget no_tail trend (session engine)).passed ≡ true)
        × (0 < size_of (λ returns. 0) (λ signal. pos 1000000) trend (session engine)))
process_signal-gated_example =
    process_signal-gated paper_gateway 7 static_budget no_tail (λ returns. 0)
      (λ signal. pos 1000000) "r1" trend (session engine) refl

submit_entry-ledger_example :
    let reserved = with_book (reserve "r1" "BTC/USDT" (pos 550) "trend" 7) engine in
    let sent = submit_order paper_gateway 7 (entry_request 550 trend) reserved in
    let result = submit_entry paper_gateway 7 "r1" 550 trend (session engine) in
    ((oid : String)
      → oid ≢ "r1"
      → lookup oid result.0.engine.portfolio.pending ≡ lookup oid engine.portfolio.pending)
    × (result.1 ≡ true → result.0.engine ≡ engine)
    × ((answer : Engine PaperGateway × Order)
        → sent ≡ some answer
        → is_settled answer.1.status ≡ true
        → result.0.engine.portfolio.pending ≡ engine.portfolio.pending)
    × ((answer : Engine PaperGateway × Order)
        → sent ≡ some answer
        → lookup "r1" result.0.engine.portfolio.pending
          ≡ kept_of
              (entry_of 7 550 trend)
              (answer.1.filled_quantity *ℤ answer.1.filled_price)
              answer.1.status)
unfolding lookup
submit_entry-ledger_example =
    submit_entry-ledger paper_gateway 7 "r1" 550 trend (session engine) refl

restore_from_snapshot-build_snapshot_example :
    let restored =
      restore_from_snapshot (build_snapshot 9 "paper" engine) (Portfolio.init (pos 5)) in
    ((s : String) → lookup s restored.positions ≡ lookup s engine.portfolio.positions)
    × (abs (restored.cash -ℤ engine.portfolio.cash) ≤ money_epsilon)
unfolding lookup Portfolio.init
restore_from_snapshot-build_snapshot_example =
    restore_from_snapshot-build_snapshot 9 "paper" engine (Portfolio.init (pos 5)) (refl, refl, tt)
      (refl, tt) refl

abbrev idle : Engine Unit
idle = record {
  gateway = some tt;
  kill_switch = none;
  order_mgr = record engine.order_mgr { orders = [] };
  portfolio = Portfolio.init (pos 5);
  event_bus = true;
  events = [];
  order_total = [];
  orders_filled = [];
}

abbrev settings : ReconSettings
settings = record {
  drift_threshold_bps = 100;
  order_staleness_seconds = 1000000;
  sinks = quiet.sinks;
}

abbrev recovered : TradingSession Unit
recovered =
    recover (exchange (btc ∷ [])) settings 1301 "RECON-1" true "live"
      (loaded (build_snapshot 9 "live" (record idle { portfolio = book }))) (session idle)

recover_run : recovered.recovery_verified ≡ true
unfolding recover restore_checkpoint restore_from_snapshot restore_cash restore_positions
    build_snapshot update_cash set_position refresh_drawdown verify_recovery
    build_reconciliation_engine run_daily_reconciliation capture_local_snapshot
    capture_exchange_snapshot compare_snapshots conclude emit handle_significant_drift
    local_positions exchange_entries position_entry all_symbols keys_beyond compare_symbols
    compare_symbol mismatch detect_orphan_orders orphans_from orphans_in local_order_ids ids_of
    discrepancy_set max_severity_of max_from severity_score relative_severity lookup insert contains
    member ◌-ℤ◌ Portfolio.init get_open_orders keep_if
recover_run = refl

recover-tolerates_example :
    tolerates 100 10000
      (held_amount "BTC/USDT" recovered.engine.portfolio.positions)
      (last_amount "BTC/USDT" none (btc ∷ []))
    ≡ true
recover-tolerates_example =
    recover-tolerates (exchange (btc ∷ [])) settings 1301 "RECON-1" "live"
      (build_snapshot 9 "live" (record idle { portfolio = book })) (session idle) tt (btc ∷ [])
      "BTC/USDT" refl refl refl recover_run

-- At 200 seconds the reservation of the book is stale.
release_pending-stale_example :
    let done = release_pending paper_gateway 200000 engine in
    let old = stale_entry 200000 max_pending_age (lookup "a" engine.portfolio.pending) in
    (lookup "a" done.0.portfolio.pending
      ≡ (if old then none else lookup "a" engine.portfolio.pending))
    × (member "a" done.1 ≡ old)
unfolding lookup check_timeouts member Orders.check_timeouts
release_pending-stale_example =
    release_pending-stale paper_gateway 200000 "a" engine (refl, tt) refl
