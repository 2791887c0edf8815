-- ===== src/Monitoring/Status.antt =====
-- The health of a session (quantflow/monitoring/session_health.py). The age of the last bar is in
-- milliseconds; the time of the snapshot is left out.
use intelligent_trading_syst.Base.{
  ℕ, Bool, false, not, ◌&&◌, Option, none, some, List, String, ◌==◌, ℤ, ltb, if◌then◌else◌,
}

pub record SessionHealthSnapshot : Type 0 where
  pub mode : String
  pub strategy_id : String
  pub up : Bool
  pub bars_processed : ℕ
  pub last_bar_age : ℕ
  pub open_orders : ℕ
  pub portfolio_value : Option ℤ
  pub drawdown : Option ℤ
  pub kill_switch_active : Bool
  pub gateway_connected : Option Bool
  pub notes : List String

abbrev pub is_disconnected : Option Bool → Bool
is_disconnected none = false
is_disconnected (some connected) = not connected

unfoldable pub health_status : SessionHealthSnapshot → String
health_status s =
    if s.kill_switch_active
    then "halted"
    else if not s.up
    then "down"
    else if ltb 3600000 s.last_bar_age
    then "stale"
    else if is_disconnected s.gateway_connected
    then "degraded"
    else "healthy"

-- The gauges that `update_session_health` is called with.
pub record HealthGauges : Type 0 where
  pub mode : String
  pub strategy_id : String
  pub up : Bool
  pub bars_processed : ℕ
  pub last_bar_age : ℕ
  pub open_orders : ℕ

abbrev pub gauges_of : SessionHealthSnapshot → HealthGauges
gauges_of s = record {
  mode = s.mode;
  strategy_id = s.strategy_id;
  up = s.up && not s.kill_switch_active;
  bars_processed = s.bars_processed;
  last_bar_age = s.last_bar_age;
  open_orders = s.open_orders;
}

-- `build_session_health` of a snapshot whose strategy id may be empty, with the gauges it pushes.
unfoldable pub build_session_health :
    Bool → SessionHealthSnapshot → SessionHealthSnapshot × Option HealthGauges
build_session_health push_metrics asked =
    let snap = record asked {
      strategy_id = if asked.strategy_id == "" then "default" else asked.strategy_id;
    } in
    (snap, if push_metrics then some (gauges_of snap) else none)
