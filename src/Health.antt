-- ===== src/Health.antt =====
-- The exchange health monitor (quantflow/execution/exchange_health.py): a sliding window of
-- outcomes and a circuit breaker with hysteresis.
-- Clock readings are milliseconds and come as arguments, one for each method call: the second
-- reading, which `_trip` makes in `snapshot`, only feeds the alert. The error-rate threshold is a
-- fraction `num / den`, compared by cross-multiplication. Alerts and events are a list of notices.
pub mod Window
pub mod Breaker
pub mod Traces
pub mod Examples
use intelligent_trading_syst.Base.{
  ℕ, ◌+◌, ◌-◌, ◌*◌, Bool, true, false, not, ◌&&◌, List, [], ◌∷◌, ◌++◌, length, count_if, leb, ltb,
  eqb, if◌then◌else◌,
}

-- (reading, success), oldest first.
abbrev pub Outcomes : Type 0
Outcomes = List (ℕ × Bool)

-- What reaches the monitoring sink and the event bus: `circuit_opened` stands for the risk event,
-- the alert and the EVENT_RISK emergency of `_trip`.
pub data Notice : Type 0 where
  circuit_opened circuit_closed : Notice

pub record HealthMonitor : Type 0 where
  pub window : ℕ
  pub error_rate_num : ℕ
  pub error_rate_den : ℕ
  pub rate_limit_streak_threshold : ℕ
  pub cooldown : ℕ
  pub events : Outcomes
  pub rate_limit_streak : ℕ
  pub is_open : Bool
  pub opened_at : ℕ
  pub recovery_streak : ℕ
  pub notices : List Notice

-- RECOVERY_SUCCESS_STREAK
abbrev pub recovery_success_streak : ℕ
recovery_success_streak = 3

abbrev pub is_error : ℕ × Bool → Bool
is_error (stamp, success) = not success

-- `_purge`: the oldest outcomes are dropped while they are older than the window.
unfoldable pub purge_events : ℕ → ℕ → Outcomes → Outcomes
purge_events now window [] = []
purge_events now window ((stamp, success) ∷ events) =
    let rest = purge_events now window events in
    if ltb (stamp + window) now then rest else (stamp, success) ∷ events

unfoldable pub purge : ℕ → HealthMonitor → HealthMonitor
unfolding purge_events
purge now m = record m { events = purge_events now m.window m.events }

unfoldable pub note_outcome : ℕ → Bool → HealthMonitor → HealthMonitor
unfolding purge
note_outcome now success m = purge now (record m { events = m.events ++ (now, success) ∷ [] })

unfoldable pub should_trip : HealthMonitor → Bool
unfolding count_if
should_trip m =
    if leb m.rate_limit_streak_threshold m.rate_limit_streak
    then true
    else if eqb (length m.events) 0
    then false
    else ltb (m.error_rate_num * length m.events) (count_if is_error m.events * m.error_rate_den)

unfoldable pub trip : ℕ → HealthMonitor → HealthMonitor
trip now m = record (purge now m) {
  is_open = true;
  opened_at = now;
  recovery_streak = 0;
  notices = circuit_opened ∷ m.notices;
}

unfoldable pub close_circuit : HealthMonitor → HealthMonitor
close_circuit m = record m {
  is_open = false;
  recovery_streak = 0;
  rate_limit_streak = 0;
  events = [];
  notices = circuit_closed ∷ m.notices;
}

-- `_record_failure` after the outcome is in the window.
unfoldable pub settle_failure : ℕ → HealthMonitor → HealthMonitor
unfolding should_trip trip
settle_failure now m =
    if m.is_open
    then record m { opened_at = now; recovery_streak = 0 }
    else if should_trip m
    then trip now m
    else m

unfoldable pub record_failure : ℕ → HealthMonitor → HealthMonitor
unfolding note_outcome settle_failure
record_failure now m = settle_failure now (note_outcome now false m)

-- `record_api_error` and `record_ws_disconnect` log, and record a failure.
unfoldable pub record_api_error : ℕ → HealthMonitor → HealthMonitor
unfolding record_failure
record_api_error now m = record_failure now m

unfoldable pub record_ws_disconnect : ℕ → HealthMonitor → HealthMonitor
unfolding record_failure
record_ws_disconnect now m = record_failure now m

unfoldable pub record_rate_limited : ℕ → HealthMonitor → HealthMonitor
unfolding record_failure
record_rate_limited now m =
    record_failure now (record m { rate_limit_streak = m.rate_limit_streak + 1 })

-- `record_success` after the outcome is in the window.
unfoldable pub settle_success : ℕ → HealthMonitor → HealthMonitor
unfolding close_circuit
settle_success now m =
    if m.is_open && leb (m.opened_at + m.cooldown) now
    then if leb recovery_success_streak (m.recovery_streak + 1)
      then close_circuit m
      else record m { recovery_streak = m.recovery_streak + 1 }
    else m

unfoldable pub record_success : ℕ → HealthMonitor → HealthMonitor
unfolding note_outcome settle_success
record_success now m =
    settle_success now (note_outcome now true (record m { rate_limit_streak = 0 }))

unfoldable pub circuit_open : HealthMonitor → Bool
circuit_open m = m.is_open

-- The error rate of `snapshot`, as (errors, samples); `cooldown_remaining` is 0 when closed.
unfoldable pub snapshot_rate : ℕ → HealthMonitor → ℕ × ℕ
unfolding purge count_if
snapshot_rate now m = let m' = purge now m in (count_if is_error m'.events, length m'.events)

unfoldable pub cooldown_remaining : ℕ → HealthMonitor → ℕ
cooldown_remaining now m = if m.is_open then m.opened_at + m.cooldown - now else 0
