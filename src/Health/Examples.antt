-- ===== src/Health/Examples.antt =====
-- Exchange health: test data, runs of the definitions and instances of the theorems.
use intelligent_trading_syst.Base.{◌+◌, ◌≡◌, refl, true, false, [], ◌∷◌, count_if, ltb, arith}
use intelligent_trading_syst.Health.{
  circuit_opened, HealthMonitor, record_failure, record_success, record_api_error,
}
use intelligent_trading_syst.Health.Breaker.{
  record_successes, record_rate_limits, is_after, recovery_exact, failure_reanchors,
}
use intelligent_trading_syst.Health.Traces
use intelligent_trading_syst.Health.Traces.{
  api_error, rate_limited, success, run, IsSound, open_until_cooldown, run-IsSound,
  rate_limits_trip,
}

-- The defaults of the constructor: 60 s, 0.5, three in a row, 300 s.
abbrev pub closed : HealthMonitor
closed = record {
  window = 60000;
  error_rate_num = 1;
  error_rate_den = 2;
  rate_limit_streak_threshold = 3;
  cooldown = 300000;
  events = [];
  rate_limit_streak = 0;
  is_open = false;
  opened_at = 0;
  recovery_streak = 0;
  notices = [];
}

abbrev pub tripped : HealthMonitor
tripped = record closed {
  events = (1000, false) ∷ [];
  is_open = true;
  opened_at = 1000;
  notices = circuit_opened ∷ [];
}

failure_runs : record_failure 1000 closed ≡ tripped
unfolding record_failure
failure_runs = refl

-- A failure in the middle of the observation throws away the successes counted so far.
interrupted :
    (run
      ((success, 400000)
        ∷ (success, 400001)
        ∷ (api_error, 400002)
        ∷ (success, 400003)
        ∷ (success, 700002)
        ∷ [])
      tripped).recovery_streak
    ≡ 1
unfolding run Traces.handle record_success record_api_error
interrupted = refl

recovery_exact_example :
    (record_successes (2000 ∷ 400000 ∷ 400001 ∷ 400002 ∷ []) tripped).is_open
    ≡ ltb (0 + count_if (is_after 301000) (2000 ∷ 400000 ∷ 400001 ∷ 400002 ∷ [])) 3
recovery_exact_example = recovery_exact _ tripped refl (omega arith)

reanchored :
    let m = record_failure 2000 tripped in
    (m.is_open ≡ true)
    × (m.opened_at ≡ 2000)
    × (m.recovery_streak ≡ 0)
    × (m.cooldown ≡ 300000)
    × (m.notices ≡ circuit_opened ∷ [])
reanchored = failure_reanchors 2000 tripped refl

open_until_cooldown_example :
    (run ((success, 2000) ∷ (success, 3000) ∷ (success, 300999) ∷ []) tripped).is_open ≡ true
open_until_cooldown_example =
    open_until_cooldown _ tripped refl
      (omega arith, omega arith, (omega arith, omega arith, (omega arith, omega arith, tt)))

closed-IsSound : IsSound closed
unfolding count_if
closed-IsSound = ground arith

run-IsSound_example : IsSound (run ((api_error, 1000) ∷ (success, 400000) ∷ []) closed)
run-IsSound_example = run-IsSound _ closed closed-IsSound

rate_limits_trip_example : (record_rate_limits (1000 ∷ 1001 ∷ 1002 ∷ []) closed).is_open ≡ true
rate_limits_trip_example = rate_limits_trip _ closed (omega arith) (omega arith)
