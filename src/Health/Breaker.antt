-- ===== src/Health/Breaker.antt =====
-- The circuit breaker: when it opens, and what closes it again.
use intelligent_trading_syst.Base.{
  count_if-le-length, ℕ, ◌+◌, ◌*◌, ◌<◌, ◌≡◌, ◌⊎◌, Bool, true, false, ◌||◌, List, [], ◌∷◌, ◌++◌,
  count_if, leb, ltb, arith, length,
}
use intelligent_trading_syst.Health.{
  is_error, HealthMonitor, purge_events, record_failure, record_success, record_rate_limited,
  recovery_success_streak,
}

-- Successes at the given readings, in order.
unfoldable pub record_successes : List ℕ → HealthMonitor → HealthMonitor
record_successes [] m = m
record_successes (now ∷ nows) m = record_successes nows (record_success now m)

-- Rate-limited answers at the given readings, in order.
unfoldable pub record_rate_limits : List ℕ → HealthMonitor → HealthMonitor
record_rate_limits [] m = m
record_rate_limits (now ∷ nows) m = record_rate_limits nows (record_rate_limited now m)

abbrev pub is_after : ℕ → ℕ → Bool
is_after t now = leb t now

-- What one success does to the breaker's own fields.
success_opened :
    (now : ℕ) (m : HealthMonitor)
    → m.is_open ≡ true
    → let m' = record_success now m in
      (m'.opened_at ≡ m.opened_at)
      × (m'.cooldown ≡ m.cooldown)
      × ((leb (m.opened_at + m.cooldown) now ≡ false)
            × (m'.is_open ≡ true)
            × (m'.recovery_streak ≡ m.recovery_streak)
          ⊎ (leb (m.opened_at + m.cooldown) now ≡ true)
            × (m'.is_open ≡ ltb (m.recovery_streak + 1) 3)
            × (m'.is_open ≡ true → m'.recovery_streak ≡ m.recovery_streak + 1))
unfolding record_success
success_opened now m opened = ground arith

success_closed :
    (now : ℕ) (m : HealthMonitor) → m.is_open ≡ false → (record_success now m).is_open ≡ false
unfolding record_success
success_closed now m closed = ground arith

successes_closed :
    (nows : List ℕ) (m : HealthMonitor)
    → m.is_open ≡ false
    → (record_successes nows m).is_open ≡ false
unfolding record_successes
successes_closed [] m closed = closed
successes_closed (now ∷ nows) m closed =
    successes_closed nows (record_success now m) (success_closed now m closed)

-- Recovery is exact: an open breaker is closed after a row of successes if and only if the streak
-- reached so far, and the successes at least a cooldown after the last failure, are three in all.
pub recovery_exact :
    (nows : List ℕ) (m : HealthMonitor)
    → m.is_open ≡ true
    → m.recovery_streak < recovery_success_streak
    → (record_successes nows m).is_open
      ≡ ltb
          (m.recovery_streak + count_if (is_after (m.opened_at + m.cooldown)) nows)
          recovery_success_streak
unfolding record_successes count_if
recovery_exact [] m opened h = ground arith
recovery_exact (now ∷ nows) m opened h = ground (
  arith,
  success_opened now m opened,
  successes_closed nows (record_success now m),
  recovery_exact nows (record_success now m),
)

-- A failure of an open breaker starts the cooldown and the observation anew.
pub failure_reanchors :
    (now : ℕ) (m : HealthMonitor)
    → m.is_open ≡ true
    → let m' = record_failure now m in
      (m'.is_open ≡ true)
      × (m'.opened_at ≡ now)
      × (m'.recovery_streak ≡ 0)
      × (m'.cooldown ≡ m.cooldown)
      × (m'.notices ≡ m.notices)
unfolding record_failure
failure_reanchors now m opened = ground arith

-- A closed breaker opens on a failure exactly when the streak of rate limits has reached its
-- threshold, or the share of errors in the window is above the error-rate threshold.
pub failure_trips :
    (now : ℕ) (m : HealthMonitor)
    → m.is_open ≡ false
    → let es = purge_events now m.window (m.events ++ (now, false) ∷ []) in
      (record_failure now m).is_open ≡ (
        leb m.rate_limit_streak_threshold m.rate_limit_streak
        || ltb (m.error_rate_num * length es) (count_if is_error es * m.error_rate_den))
unfolding record_failure count_if
failure_trips now m closed =
    ground (
      arith,
      count_if-le-length is_error (purge_events now m.window (m.events ++ (now, false) ∷ [])),
    )
