-- ===== src/Health/Traces.antt =====
-- Runs of the monitor over any sequence of outcomes.
use intelligent_trading_syst.Base.{
  ℕ, ◌+◌, ◌≤◌, ◌<◌, ◌≡◌, Bool, true, false, List, [], ◌∷◌, count_if, arith, length, if◌then◌else◌,
}
use intelligent_trading_syst.Health.{
  Notice, circuit_opened, circuit_closed, HealthMonitor, record_success, record_rate_limited,
  record_api_error, record_ws_disconnect, recovery_success_streak,
}
use intelligent_trading_syst.Health.Breaker.{record_rate_limits}

-- What the gateway reports.
pub data Report : Type 0 where
  api_error ws_disconnect rate_limited success : Report

unfoldable pub handle : Report → ℕ → HealthMonitor → HealthMonitor
handle api_error now m = record_api_error now m
handle ws_disconnect now m = record_ws_disconnect now m
handle rate_limited now m = record_rate_limited now m
handle success now m = record_success now m

unfoldable pub run : List (Report × ℕ) → HealthMonitor → HealthMonitor
run [] m = m
run ((report, now) ∷ reports) m = run reports (handle report now m)

-- Readings that do not decrease from `t` on, and stay below `bound`.
abbrev pub IsClockWithin : ℕ → ℕ → List (Report × ℕ) → Type 0
IsClockWithin t bound [] = Unit
IsClockWithin t bound ((report, now) ∷ reports) =
    (t ≤ now) × (now < bound) × IsClockWithin now bound reports

IsClockWithin-weaken :
    (s t bound : ℕ) (reports : List (Report × ℕ))
    → s ≤ t
    → IsClockWithin t bound reports
    → IsClockWithin s bound reports
IsClockWithin-weaken s t bound [] h c = tt
IsClockWithin-weaken s t bound ((report, now) ∷ reports) h c = (omega arith, c.1, c.2)

-- What one report does to a breaker that is open, before the cooldown is over.
handle_early :
    (report : Report) (now bound : ℕ) (m : HealthMonitor)
    → m.is_open ≡ true
    → bound ≤ m.opened_at + m.cooldown
    → m.opened_at ≤ now
    → now < bound
    → let m' = handle report now m in
      (m'.is_open ≡ true) × (bound ≤ m'.opened_at + m'.cooldown) × (m'.opened_at ≤ now)
unfolding handle record_api_error record_ws_disconnect record_rate_limited record_success
handle_early api_error now bound m opened b o n = ground arith
handle_early ws_disconnect now bound m opened b o n = ground arith
handle_early rate_limited now bound m opened b o n = ground arith
handle_early success now bound m opened b o n = ground arith

run_early :
    (reports : List (Report × ℕ)) (bound : ℕ) (m : HealthMonitor)
    → m.is_open ≡ true
    → bound ≤ m.opened_at + m.cooldown
    → IsClockWithin m.opened_at bound reports
    → (run reports m).is_open ≡ true
unfolding run
run_early [] bound m opened b c = opened
run_early ((report, now) ∷ reports) bound m opened b c =
    let (opened', b', o') = handle_early report now bound m opened b c.0 c.1 in
    run_early reports bound (handle report now m) opened' b'
      (IsClockWithin-weaken _ now bound reports o' c.2)

-- An open breaker stays open through any reports that come, on a clock that does not run
-- backwards, before the cooldown since its last failure is over.
pub open_until_cooldown :
    (reports : List (Report × ℕ)) (m : HealthMonitor)
    → m.is_open ≡ true
    → IsClockWithin m.opened_at (m.opened_at + m.cooldown) reports
    → (run reports m).is_open ≡ true
open_until_cooldown reports m opened c =
    run_early reports (m.opened_at + m.cooldown) m opened (omega arith) c

abbrev is_opened : Notice → Bool
is_opened circuit_opened = true
is_opened circuit_closed = false

abbrev is_closed : Notice → Bool
is_closed circuit_opened = false
is_closed circuit_closed = true

-- The breaker has been reported open once more than closed exactly when it is open, and its
-- recovery streak is below three, and zero while it is closed.
pub record IsSound (m : HealthMonitor) : Type 0 where
  pub reported :
      count_if is_opened m.notices ≡ count_if is_closed m.notices + (if m.is_open then 1 else 0)
  pub streak : m.recovery_streak < recovery_success_streak
  pub at_rest : m.is_open ≡ false → m.recovery_streak ≡ 0

handle-IsSound :
    (report : Report) (now : ℕ) (m : HealthMonitor) → IsSound m → IsSound (handle report now m)
unfolding handle record_api_error record_ws_disconnect record_rate_limited record_success count_if
handle-IsSound api_error now m s = ground arith
handle-IsSound ws_disconnect now m s = ground arith
handle-IsSound rate_limited now m s = ground arith
handle-IsSound success now m s = ground arith

-- Any sequence of reports, at any readings, keeps the monitor sound.
pub run-IsSound :
    (reports : List (Report × ℕ)) (m : HealthMonitor) → IsSound m → IsSound (run reports m)
unfolding run
run-IsSound [] m s = s
run-IsSound ((report, now) ∷ reports) m s =
    run-IsSound reports (handle report now m) (handle-IsSound report now m s)

rate_limited_lem :
    (now : ℕ) (m : HealthMonitor)
    → let m' = record_rate_limited now m in
      (m'.rate_limit_streak ≡ m.rate_limit_streak + 1)
      × (m'.rate_limit_streak_threshold ≡ m.rate_limit_streak_threshold)
      × (m.is_open ≡ true → m'.is_open ≡ true)
      × (m.rate_limit_streak_threshold ≤ m.rate_limit_streak + 1 → m'.is_open ≡ true)
unfolding record_rate_limited
rate_limited_lem now m = ground arith

rate_limits_open :
    (nows : List ℕ) (m : HealthMonitor)
    → m.is_open ≡ true
    → (record_rate_limits nows m).is_open ≡ true
unfolding record_rate_limits
rate_limits_open [] m opened = opened
rate_limits_open (now ∷ nows) m opened =
    rate_limits_open nows (record_rate_limited now m) ((rate_limited_lem now m).2 opened)

-- Enough rate-limited answers in a row open the breaker, whatever the error rate.
pub rate_limits_trip :
    (nows : List ℕ) (m : HealthMonitor)
    → 0 < length nows
    → m.rate_limit_streak_threshold ≤ m.rate_limit_streak + length nows
    → (record_rate_limits nows m).is_open ≡ true
unfolding record_rate_limits
rate_limits_trip [] m some_now h = absurd (omega arith)
rate_limits_trip (now ∷ []) m some_now h = (rate_limited_lem now m).3 (omega arith)
rate_limits_trip (now ∷ now' ∷ nows) m some_now h =
    let (streak, threshold, _, _) = rate_limited_lem now m in
    rate_limits_trip (now' ∷ nows) (record_rate_limited now m) (omega arith)
      (omega (arith, streak, threshold))
