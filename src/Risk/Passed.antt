-- ===== src/Risk/Passed.antt =====
-- What each check of the risk engine that passed says of its own limit.
use intelligent_trading_syst.Base.{
  ◌*◌, ◌<◌, ◌≡◌, ◌⊎◌, true, false, Option, none, some, lookup, contains, ℤ, pos, ◌+ℤ◌, ◌-ℤ◌, ◌*ℤ◌,
  abs, is_pos, ◌≤ℤ◌, ◌<ℤ◌, arith,
}
use intelligent_trading_syst.Models.{Portfolio, Position, Signal, portfolio_value}
use intelligent_trading_syst.Portfolio.Pending.{PendingView}
use intelligent_trading_syst.Health.{HealthMonitor, circuit_open}
use intelligent_trading_syst.Risk.Budget.{million}
use intelligent_trading_syst.Risk.Checks.{
  RiskEngine, is_long, check_exchange_circuit, check_exchange_exposure, exposure_of, pending_sum,
  reaches, pending_in, check_position_limit, effective_count, check_portfolio_limit,
  check_daily_loss, check_weekly_loss, check_drawdown_limit,
}

pub circuit-passed :
    (e : RiskEngine) (health : HealthMonitor)
    → (check_exchange_circuit e).passed ≡ true
    → e.exchange_health ≡ some health
    → circuit_open health ≡ false
unfolding check_exchange_circuit
circuit-passed e health h found = ground (arith, found)

pub exposure-passed :
    (e : RiskEngine) (signal : Signal) (portfolio : Portfolio) (pending : Option PendingView)
    (limit : ℤ)
    → (check_exchange_exposure e signal portfolio pending).passed ≡ true
    → e.exchange_exposure_limit_pct ≡ some limit
    → is_long signal.direction ≡ true
    → pos 0 <ℤ portfolio_value portfolio
    → (exposure_of portfolio.positions +ℤ pending_sum pending) *ℤ pos million
      ≤ℤ limit *ℤ portfolio_value portfolio
unfolding check_exchange_exposure
exposure-passed e signal portfolio pending limit h found long solvent = ground (arith, found)

pub position-passed :
    (e : RiskEngine) (signal : Signal) (portfolio : Portfolio) (pending : Option PendingView)
    (p : Position)
    → (check_position_limit e signal portfolio pending).passed ≡ true
    → lookup signal.symbol portfolio.positions ≡ some p
    → is_pos p.current_price ≡ true
    → pos 0 <ℤ portfolio_value portfolio
    → (pos (abs p.quantity * abs p.current_price) +ℤ pending_in signal.symbol pending)
        *ℤ pos million
      <ℤ e.config.position_limit_pct *ℤ portfolio_value portfolio
unfolding check_position_limit reaches
position-passed e signal portfolio pending p h found priced solvent = ground (arith, found)

pub waiting-passed :
    (e : RiskEngine) (signal : Signal) (portfolio : Portfolio) (pending : Option PendingView)
    → (check_position_limit e signal portfolio pending).passed ≡ true
    → lookup signal.symbol portfolio.positions ≡ none
    → pos 0 <ℤ portfolio_value portfolio
    → pos 0 <ℤ pending_in signal.symbol pending
    → pending_in signal.symbol pending *ℤ pos million
      <ℤ e.config.position_limit_pct *ℤ portfolio_value portfolio
unfolding check_position_limit reaches
waiting-passed e signal portfolio pending h absent solvent waiting = ground (arith, absent)

pub count-passed :
    (e : RiskEngine) (signal : Signal) (portfolio : Portfolio) (pending : Option PendingView)
    → (check_portfolio_limit e signal portfolio pending).passed ≡ true
    → (effective_count portfolio pending < e.config.max_positions)
      ⊎ (contains signal.symbol portfolio.positions ≡ true)
unfolding check_portfolio_limit
count-passed e signal portfolio pending h = ground arith

pub daily-passed :
    (e : RiskEngine) (portfolio : Portfolio) (baseline : ℤ)
    → (check_daily_loss e portfolio).passed ≡ true
    → portfolio.daily_baseline ≡ some baseline
    → pos 0 <ℤ baseline
    → e.config.daily_loss_limit *ℤ baseline
      ≤ℤ (portfolio_value portfolio -ℤ baseline) *ℤ pos million
unfolding check_daily_loss
daily-passed e portfolio baseline h found anchored = ground (arith, found)

pub weekly-passed :
    (e : RiskEngine)
    → (check_weekly_loss e).passed ≡ true
    → e.config.weekly_loss_limit ≤ℤ e.weekly_pnl_pct
unfolding check_weekly_loss
weekly-passed e h = ground arith

pub drawdown-passed :
    (e : RiskEngine) (portfolio : Portfolio)
    → (check_drawdown_limit e portfolio).passed ≡ true
    → e.config.max_drawdown *ℤ pos portfolio.current_drawdown.den
      ≤ℤ portfolio.current_drawdown.num *ℤ pos million
unfolding check_drawdown_limit
drawdown-passed e portfolio h = ground arith
