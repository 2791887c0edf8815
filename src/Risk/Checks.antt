-- ===== src/Risk/Checks.antt =====
-- The checks of the risk engine (quantflow/signal/risk_engine.py), in their order.
-- Limits, budgets, returns and the value at risk are in millionths. Percentiles and volatility
-- are numpy's: the section takes the conditional value at risk of a return history, and the
-- scaled budget of a strategy, as functions. The details of a decision are left out.
use intelligent_trading_syst.Base.{
  ℕ, ◌+◌, ◌*◌, Bool, true, false, not, ◌&&◌, Option, none, some, List, [], ◌∷◌, String, Dict,
  lookup, contains, size, ℤ, pos, ◌+ℤ◌, ◌-ℤ◌, ◌*ℤ◌, abs, is_pos, is_neg, leb, leb_ℤ, ltb_ℤ,
  if◌then◌else◌,
}
use intelligent_trading_syst.Models.{
  Direction, Position, Portfolio, Signal, RiskDecision, portfolio_value,
}
use intelligent_trading_syst.Portfolio.Pending.{PendingView, get_or_zero}
use intelligent_trading_syst.Health.{HealthMonitor, circuit_open}
use intelligent_trading_syst.Risk.Budget.{BookRiskBudget, million}

pub record RiskConfig : Type 0 where
  pub position_limit_pct : ℤ
  pub max_positions : ℕ
  pub daily_loss_limit : ℤ
  pub weekly_loss_limit : ℤ
  pub max_drawdown : ℤ
  pub cvar_limit : ℤ

pub record RiskEngine : Type 0 where
  pub config : RiskConfig
  pub strategy_risk_budgets : Dict ℤ
  pub exchange_health : Option HealthMonitor
  pub exchange_exposure_limit_pct : Option ℤ
  pub book_risk_budget : Option BookRiskBudget
  pub weekly_pnl_pct : ℤ
  pub returns_history : List ℤ

abbrev pub pass : RiskDecision
pass = record { passed = true; reason = "" }

abbrev pub fail : String → RiskDecision
fail reason = record { passed = false; reason = reason }

abbrev pub is_long : Direction → Bool
is_long Direction.long = true
is_long _ = false

unfoldable pub check_exchange_circuit : RiskEngine → RiskDecision
check_exchange_circuit e = elim e.exchange_health [
  | none ↦ pass
  | some health ↦ if circuit_open health then fail "exchange_circuit_open" else pass
]

-- `abs(quantity) * current_price` of the positions with a positive price.
unfoldable pub exposure_of : Dict Position → ℤ
exposure_of [] = pos 0
exposure_of ((k, p) ∷ positions) =
    let rest = exposure_of positions in
    if is_pos p.current_price then pos (abs p.quantity * abs p.current_price) +ℤ rest else rest

-- `sum(v for v in by_symbol.values() if v > 0)`
unfoldable pub positive_sum : Dict ℤ → ℤ
positive_sum [] = pos 0
positive_sum ((k, v) ∷ d) = let rest = positive_sum d in if is_pos v then v +ℤ rest else rest

-- What `pending` adds; a view is truthy.
unfoldable pub pending_sum : Option PendingView → ℤ
pending_sum none = pos 0
pending_sum (some view) = positive_sum view.by_symbol

-- value / total > limit, for a positive total.
abbrev pub is_above : ℤ → ℤ → ℤ → Bool
is_above limit total value = ltb_ℤ (limit *ℤ total) (value *ℤ pos million)

-- (value / total if total > 0 else 0) >= limit
unfoldable pub reaches : ℤ → ℤ → ℤ → Bool
reaches limit total value =
    if is_pos total then leb_ℤ (limit *ℤ total) (value *ℤ pos million) else leb_ℤ limit (pos 0)

unfoldable pub check_exchange_exposure :
    RiskEngine → Signal → Portfolio → Option PendingView → RiskDecision
check_exchange_exposure e signal portfolio pending = elim e.exchange_exposure_limit_pct [
  | none ↦ pass
  | some limit ↦
      let total = portfolio_value portfolio in
      if not (is_pos total)
      then pass
      else if is_above limit total (exposure_of portfolio.positions +ℤ pending_sum pending)
          && is_long signal.direction
      then fail "exchange_exposure_exceeded"
      else pass
]

-- The net notional of the positions with a positive price.
unfoldable pub net_of : Dict Position → ℤ
net_of [] = pos 0
net_of ((k, p) ∷ positions) =
    let rest = net_of positions in
    if is_pos p.current_price then p.quantity *ℤ p.current_price +ℤ rest else rest

-- `min(max(strength, 0.0), 1.0)`, where `strength or 1.0` makes a zero strength a full one.
unfoldable pub clipped_strength : ℤ → ℤ
clipped_strength strength =
    if not (is_pos strength) && not (is_neg strength)
    then pos million
    else if is_neg strength
    then pos 0
    else if leb_ℤ (pos million) strength
    then pos million
    else strength

-- The pending exposure that counts towards the position in a symbol.
unfoldable pub pending_in : String → Option PendingView → ℤ
pending_in symbol none = pos 0
pending_in symbol (some view) = get_or_zero symbol view.by_symbol

abbrev position_notional : Position → ℤ
position_notional p =
    if is_pos p.current_price then pos (abs p.quantity * abs p.current_price) else pos 0

unfoldable pub check_position_limit :
    RiskEngine → Signal → Portfolio → Option PendingView → RiskDecision
check_position_limit e signal portfolio pending =
    let total = portfolio_value portfolio in
    let waiting = pending_in signal.symbol pending in
    elim (lookup signal.symbol portfolio.positions) [
      | some p ↦
          if reaches e.config.position_limit_pct total (position_notional p +ℤ waiting)
          then fail "position_limit"
          else pass
      | none ↦
          if is_pos waiting && reaches e.config.position_limit_pct total waiting
          then fail "position_limit"
          else pass
    ]

-- The pending symbols that would open new positions.
unfoldable pub new_symbols : Dict ℤ → Dict Position → ℕ
new_symbols [] positions = 0
new_symbols ((symbol, v) ∷ d) positions =
    let rest = new_symbols d positions in if contains symbol positions then rest else rest + 1

unfoldable pub effective_count : Portfolio → Option PendingView → ℕ
effective_count portfolio none = size portfolio.positions
effective_count portfolio (some view) =
    size portfolio.positions + new_symbols view.by_symbol portfolio.positions

unfoldable pub check_portfolio_limit :
    RiskEngine → Signal → Portfolio → Option PendingView → RiskDecision
check_portfolio_limit e signal portfolio pending =
    if leb e.config.max_positions (effective_count portfolio pending)
      && not (contains signal.symbol portfolio.positions)
    then fail "max_positions"
    else pass

-- A baseline of `none` or at most zero is not yet anchored.
unfoldable pub check_daily_loss : RiskEngine → Portfolio → RiskDecision
check_daily_loss e portfolio = elim portfolio.daily_baseline [
  | none ↦ pass
  | some baseline ↦
      if not (is_pos baseline)
      then pass
      else if ltb_ℤ ((portfolio_value portfolio -ℤ baseline) *ℤ pos million)
          (e.config.daily_loss_limit *ℤ baseline)
      then fail "daily_loss_limit"
      else pass
]

unfoldable pub check_weekly_loss : RiskEngine → RiskDecision
check_weekly_loss e =
    if ltb_ℤ e.weekly_pnl_pct e.config.weekly_loss_limit then fail "weekly_loss_limit" else pass

unfoldable pub check_drawdown_limit : RiskEngine → Portfolio → RiskDecision
check_drawdown_limit e portfolio =
    if ltb_ℤ (portfolio.current_drawdown.num *ℤ pos million)
      (e.config.max_drawdown *ℤ pos portfolio.current_drawdown.den)
    then fail "max_drawdown"
    else pass
