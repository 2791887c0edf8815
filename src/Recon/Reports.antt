-- ===== src/Recon/Reports.antt =====
-- `run_daily_reconciliation` (quantflow/reconciliation/engine.py), every failure of which becomes
-- a report with the status "failed".
use intelligent_trading_syst.Base.{
  ℕ, true, false, Option, none, some, List, [], ◌∷◌, ◌++◌, String, ltb,
}
use intelligent_trading_syst.Recon.Discrepancies.{
  Source, PositionSnapshot, DiscrepancySet, discrepancy_set, ReconStatus, DailyReconReport,
  Severity, critical, is_below,
}
use intelligent_trading_syst.Recon.Daily.{
  ok, gateway_error, other_error, Reply, ReconGateway, Sinks, ReconciliationEngine, local_positions,
  exchange_entries, all_symbols, compare_symbols,
}
use intelligent_trading_syst.Recon.Orphans.{detect_orphan_orders}

-- What a run sends: the alert, the audit event of a critical drift, and the report's own entry.
pub data ReconNotice : Type 0 where
  drift_alert : ℕ → Severity → ReconNotice
  drift_detected : ℕ → Severity → ReconNotice
  report_logged : DailyReconReport → ReconNotice

pub record ReconRun (G : Type 0) : Type 0 where
  pub gateway : G
  pub report : DailyReconReport
  pub notices : List ReconNotice

abbrev pub empty_snapshot : Source → PositionSnapshot
empty_snapshot source = record { positions = []; source = source }

abbrev pub failure_report : String → String → DailyReconReport
failure_report id error = record {
  local_snapshot = empty_snapshot Source.local;
  exchange_snapshot = empty_snapshot Source.exchange;
  discrepancies = discrepancy_set [];
  reconciliation_id = id;
  status = ReconStatus.failed;
  error_message = some error;
}

unfoldable pub capture_local_snapshot : ReconciliationEngine → PositionSnapshot
unfolding local_positions
capture_local_snapshot engine = record {
  positions = local_positions engine.portfolio;
  source = Source.local;
}

unfoldable pub capture_exchange_snapshot :
    {G : Type 0} → ReconGateway G → G → G × Reply PositionSnapshot
unfolding exchange_entries
capture_exchange_snapshot ops gw =
    let reply = ops.query_positions gw in
    (
      reply.0,
      elim reply.1 [
        | ok positions ↦
            Reply.ok
              (record { positions = exchange_entries positions []; source = Source.exchange })
        | gateway_error error ↦ Reply.gateway_error error
        | other_error error ↦ Reply.other_error error
      ],
    )

unfoldable pub compare_snapshots :
    {G : Type 0}
    → ReconGateway G
    → ℕ
    → ReconciliationEngine
    → PositionSnapshot
    → PositionSnapshot
    → G
    → G × Reply DiscrepancySet
unfolding detect_orphan_orders
compare_snapshots ops now engine l e gw =
    let reply = detect_orphan_orders ops now engine gw in
    (
      reply.0,
      elim reply.1 [
        | ok orders ↦ Reply.ok (
            discrepancy_set (
              compare_symbols engine.drift_threshold_bps l.positions e.positions
                (all_symbols l.positions e.positions)
              ++ orders))
        | gateway_error error ↦ Reply.gateway_error error
        | other_error error ↦ Reply.other_error error
      ],
    )

-- The audit event of a critical drift, after what was sent before.
unfoldable pub handle_significant_drift :
    Sinks → DiscrepancySet → List ReconNotice → List ReconNotice × Option String
handle_significant_drift sinks found sent = elim (is_below critical found.max_severity) [
  | false ↦ (sent, none)
  | true ↦ elim sinks.event_error [
    | some error ↦ (sent, some error)
    | none ↦ (
      sent ++ (ReconNotice.drift_detected found.total_discrepancies found.max_severity ∷ []),
      none,
    )
  ]
]

-- The alert, if anything was found, and the audit event of a critical drift, until one raises.
unfoldable pub emit : Sinks → DiscrepancySet → List ReconNotice × Option String
unfolding handle_significant_drift
emit sinks found = elim (ltb 0 found.total_discrepancies) [
  | false ↦ handle_significant_drift sinks found []
  | true ↦ elim sinks.alert_error [
    | some error ↦ ([], some error)
    | none ↦
        handle_significant_drift sinks found
          (ReconNotice.drift_alert found.total_discrepancies found.max_severity ∷ [])
  ]
]

-- The report, the audit entry and what an exception of either makes of the run.
unfoldable pub conclude :
    {G : Type 0}
    → Sinks
    → String
    → PositionSnapshot
    → PositionSnapshot
    → DiscrepancySet
    → G
    → ReconRun G
unfolding emit
conclude sinks id l e found gw =
    let report : DailyReconReport = record {
      local_snapshot = l;
      exchange_snapshot = e;
      discrepancies = found;
      reconciliation_id = id;
      status = ReconStatus.completed;
      error_message = none;
    } in
    let sent = emit sinks found in
    elim sent.1 [
      | some error ↦ record { gateway = gw; report = failure_report id error; notices = sent.0 }
      | none ↦ elim sinks.report_error [
        | some error ↦ record { gateway = gw; report = failure_report id error; notices = sent.0 }
        | none ↦ record {
          gateway = gw;
          report = report;
          notices = sent.0 ++ (ReconNotice.report_logged report ∷ []);
        }
      ]
    ]

abbrev pub failed_run : {G : Type 0} → String → String → G → ReconRun G
failed_run id error gw = record { gateway = gw; report = failure_report id error; notices = [] }

unfoldable pub run_daily_reconciliation :
    {G : Type 0} → ReconGateway G → ℕ → String → ReconciliationEngine → G → ReconRun G
unfolding capture_local_snapshot capture_exchange_snapshot compare_snapshots conclude
run_daily_reconciliation ops now id engine gw =
    let here = capture_local_snapshot engine in
    let captured = capture_exchange_snapshot ops gw in
    elim captured.1 [
      | gateway_error error ↦ failed_run id error captured.0
      | other_error error ↦ failed_run id error captured.0
      | ok there ↦
          let compared = compare_snapshots ops now engine here there captured.0 in
          elim compared.1 [
            | ok found ↦ conclude engine.sinks id here there found compared.0
            | gateway_error error ↦ failed_run id error compared.0
            | other_error error ↦ failed_run id error compared.0
          ]
    ]
