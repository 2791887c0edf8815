-- ===== src/Risk/Limits.antt =====
-- What a passed risk check means: every limit, as an inequality.
use intelligent_trading_syst.Base.{
  ℕ, ◌+◌, ◌*◌, ◌≤◌, ◌<◌, ◌≡◌, ◌⊎◌, Bool, true, false, not, ◌&&◌, Option, none, some, member, div_ℤ,
  List, [], ◌∷◌, String, lookup, contains, length, ℤ, pos, ◌+ℤ◌, ◌-ℤ◌, ◌*ℤ◌, abs, is_pos, ◌≤ℤ◌,
  ◌<ℤ◌, arith, sym, ◌∙◌,
}
use intelligent_trading_syst.Models.{Portfolio, Position, Signal, RiskDecision, portfolio_value}
use intelligent_trading_syst.Portfolio.Pending.{PendingView}
use intelligent_trading_syst.Health.{HealthMonitor, circuit_open}
use intelligent_trading_syst.Risk.Budget.{
  BookRiskBudget, Proposal, million, is_within, is_deep, limit_for, capped_ok, gross_ok, net_ok,
  check_budget, gross_stage, net_stage, strategy_stage, sleeve_stage,
}
use intelligent_trading_syst.Risk.Checks.{
  RiskEngine, is_long, exposure_of, pending_sum, clipped_strength, pending_in, effective_count,
}
use intelligent_trading_syst.Risk.Gate.{proposal_of, budget_keys, strategy_exposure}

-- The book budget as inequalities, limits in millionths of the equity.
pub record IsWithinBudget (b : BookRiskBudget) (r : Proposal) : Type 0 where
  pub solvent : pos 0 <ℤ r.equity
  pub shallow :
      r.risk_increasing ≡ true
      → pos (abs r.current_drawdown.num * million) <ℤ b.kill_drawdown *ℤ pos r.current_drawdown.den
  pub gross :
      pos ((abs r.current_gross + abs r.proposed_notional_delta) * million)
      ≤ℤ b.book_gross_limit *ℤ r.equity +ℤ pos (b.tolerance * million)
  pub net :
      pos (abs (r.current_net +ℤ r.proposed_notional_delta) * million)
      ≤ℤ b.book_net_limit *ℤ r.equity +ℤ pos (b.tolerance * million)
  pub strategy :
      (limit : ℤ)
      → limit_for r.strategy_id b.strategy_limits ≡ some limit
      → pos (abs (r.strategy_current_notional +ℤ r.proposed_notional_delta) * million)
        ≤ℤ limit *ℤ r.equity +ℤ pos (b.tolerance * million)
  pub sleeve :
      (limit : ℤ)
      → limit_for r.sleeve b.factor_sleeve_limits ≡ some limit
      → pos (abs (r.sleeve_current_notional +ℤ r.proposed_notional_delta) * million)
        ≤ℤ limit *ℤ r.equity +ℤ pos (b.tolerance * million)

-- The verdict as one conjunction.
abbrev all_ok : BookRiskBudget → Proposal → Bool
all_ok b r =
    is_pos r.equity
    && not (r.risk_increasing && is_deep b r.current_drawdown)
    && gross_ok b r
    && net_ok b r
    && capped_ok b r.equity (limit_for r.strategy_id b.strategy_limits) r.strategy_current_notional
        r.proposed_notional_delta
    && capped_ok b r.equity (limit_for r.sleeve b.factor_sleeve_limits) r.sleeve_current_notional
        r.proposed_notional_delta

check_budget-all_ok : (b : BookRiskBudget) (r : Proposal) → (check_budget b r).allowed ≡ all_ok b r
unfolding check_budget gross_stage net_stage strategy_stage sleeve_stage
check_budget-all_ok b r = ground arith

within-le :
    (tolerance : ℕ) (limit equity : ℤ) (value : ℕ)
    → is_within tolerance limit equity value ≡ true
    → pos (value * million) ≤ℤ limit *ℤ equity +ℤ pos (tolerance * million)
unfolding is_within
within-le tolerance limit equity value h = ground arith

capped-le :
    (b : BookRiskBudget) (equity : ℤ) (o : Option ℤ) (current delta limit : ℤ)
    → capped_ok b equity o current delta ≡ true
    → o ≡ some limit
    → pos (abs (current +ℤ delta) * million) ≤ℤ limit *ℤ equity +ℤ pos (b.tolerance * million)
capped-le b equity o current delta limit h found =
    within-le b.tolerance limit equity (abs (current +ℤ delta)) (ground (arith, h, found))

-- A proposal that the book risk budget allows keeps every bound: the equity is positive, a
-- proposal that adds risk comes before the drawdown that stops it, and the gross, the net, the
-- strategy's and the sleeve's notional are each within their limit, the tolerance included.
pub check_budget-IsWithinBudget :
    (b : BookRiskBudget) (r : Proposal) → (check_budget b r).allowed ≡ true → IsWithinBudget b r
unfolding is_deep
check_budget-IsWithinBudget b r h =
    let ok = sym (check_budget-all_ok b r) ∙ h in
    record {
      solvent = ground (arith, ok);
      shallow = λ adds. ground (arith, ok, adds);
      gross = within-le _ _ _ _ (ground (arith, ok));
      net = within-le _ _ _ _ (ground (arith, ok));
      strategy = λ limit found. capped-le b _ _ _ _ limit (ground (arith, ok)) found;
      sleeve = λ limit found. capped-le b _ _ _ _ limit (ground (arith, ok)) found;
    }

abbrev AllPassed : List RiskDecision → Type 0
AllPassed [] = Unit
AllPassed (d ∷ ds) = (d.passed ≡ true) × AllPassed ds

-- The limits that hold for a signal that the risk engine lets pass.
pub record IsWithinLimits (e : RiskEngine) (signal : Signal) (portfolio : Portfolio)
    (pending : Option PendingView) (scale_budget_pct : RiskEngine → String → ℤ → ℤ)
    (cvar : List ℤ → ℤ) : Type 0 where
  pub circuit :
      (health : HealthMonitor) → e.exchange_health ≡ some health → circuit_open health ≡ false
  pub exposure :
      (limit : ℤ)
      → e.exchange_exposure_limit_pct ≡ some limit
      → is_long signal.direction ≡ true
      → pos 0 <ℤ portfolio_value portfolio
      → (exposure_of portfolio.positions +ℤ pending_sum pending) *ℤ pos million
        ≤ℤ limit *ℤ portfolio_value portfolio
  pub position :
      (p : Position)
      → lookup signal.symbol portfolio.positions ≡ some p
      → is_pos p.current_price ≡ true
      → pos 0 <ℤ portfolio_value portfolio
      → (pos (abs p.quantity * abs p.current_price) +ℤ pending_in signal.symbol pending)
          *ℤ pos million
        <ℤ e.config.position_limit_pct *ℤ portfolio_value portfolio
  pub waiting :
      lookup signal.symbol portfolio.positions ≡ none
      → pos 0 <ℤ portfolio_value portfolio
      → pos 0 <ℤ pending_in signal.symbol pending
      → pending_in signal.symbol pending *ℤ pos million
        <ℤ e.config.position_limit_pct *ℤ portfolio_value portfolio
  pub book :
      (budget : BookRiskBudget)
      → e.book_risk_budget ≡ some budget
      → is_long signal.direction ≡ true
      → pos 0 <ℤ portfolio_value portfolio
      → IsWithinBudget budget (
          proposal_of signal portfolio pending
            (div_ℤ (portfolio_value portfolio *ℤ clipped_strength signal.strength) million))
  pub strategy :
      (key : String) (pct : ℤ)
      → member key (budget_keys signal.strategy_id) ≡ true
      → lookup key e.strategy_risk_budgets ≡ some pct
      → pos 0 <ℤ portfolio_value portfolio
      → pos (strategy_exposure key portfolio.positions * million)
        <ℤ portfolio_value portfolio *ℤ scale_budget_pct e key pct
  pub count :
      (effective_count portfolio pending < e.config.max_positions)
      ⊎ (contains signal.symbol portfolio.positions ≡ true)
  pub daily :
      (baseline : ℤ)
      → portfolio.daily_baseline ≡ some baseline
      → pos 0 <ℤ baseline
      → e.config.daily_loss_limit *ℤ baseline
        ≤ℤ (portfolio_value portfolio -ℤ baseline) *ℤ pos million
  pub weekly : e.config.weekly_loss_limit ≤ℤ e.weekly_pnl_pct
  pub drawdown :
      e.config.max_drawdown *ℤ pos portfolio.current_drawdown.den
      ≤ℤ portfolio.current_drawdown.num *ℤ pos million
  pub tail : 30 ≤ length e.returns_history → e.config.cvar_limit ≤ℤ cvar e.returns_history
