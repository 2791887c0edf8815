-- ===== src/Risk/Breaker.antt =====
-- The circuit breaker as the first gate of the risk engine.
use intelligent_trading_syst.Base.{ℕ, ◌+◌, ◌≡◌, true, Option, some, List, String, ℤ, arith}
use intelligent_trading_syst.Models.{Portfolio, Signal}
use intelligent_trading_syst.Portfolio.Pending.{PendingView}
use intelligent_trading_syst.Health.{HealthMonitor, circuit_open}
use intelligent_trading_syst.Health.Traces
use intelligent_trading_syst.Health.Traces.{Report, IsClockWithin, open_until_cooldown}
use intelligent_trading_syst.Risk.Checks.{RiskEngine, fail, check_exchange_circuit}
use intelligent_trading_syst.Risk.Gate.{first_failure, check}

-- The engine with the monitor as it is by now.
abbrev pub with_health : HealthMonitor → RiskEngine → RiskEngine
with_health health e = record e { exchange_health = some health }

module _ (scale_budget_pct : RiskEngine → String → ℤ → ℤ) (cvar : List ℤ → ℤ) where
  open-fails :
      (health : HealthMonitor) (e : RiskEngine) (signal : Signal) (portfolio : Portfolio)
      (pending : Option PendingView)
      → health.is_open ≡ true
      → check scale_budget_pct cvar (with_health health e) signal portfolio pending
        ≡ fail "exchange_circuit_open"
  unfolding check first_failure check_exchange_circuit circuit_open
  open-fails health e signal portfolio pending opened = ground (arith, opened)

  -- While the breaker is open, every signal is rejected for that reason, exits as well: after any
  -- reports to an open monitor, on a clock that does not run backwards and before the cooldown
  -- since its last failure is over, whatever the book and the pending exposure.
  pub cooldown-rejects :
      (reports : List (Report × ℕ)) (m : HealthMonitor) (e : RiskEngine) (signal : Signal)
      (portfolio : Portfolio) (pending : Option PendingView)
      → m.is_open ≡ true
      → IsClockWithin m.opened_at (m.opened_at + m.cooldown) reports
      → check scale_budget_pct cvar (with_health (Traces.run reports m) e) signal portfolio pending
        ≡ fail "exchange_circuit_open"
  cooldown-rejects reports m e signal portfolio pending opened clock =
      open-fails (Traces.run reports m) e signal portfolio pending
        (open_until_cooldown reports m opened clock)
