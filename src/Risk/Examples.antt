-- ===== src/Risk/Examples.antt =====
-- Risk checks: test data, runs of the definitions and instances of the theorems.
use intelligent_trading_syst.Base.{
  ◌≡◌, refl, true, none, some, List, [], ◌∷◌, String, lookup, ℤ, pos, negsuc, ◌+ℤ◌, ◌*ℤ◌, arith,
}
use intelligent_trading_syst.Models.{Direction, Portfolio, Signal}
use intelligent_trading_syst.Portfolio.Examples.{btc}
use intelligent_trading_syst.Health.Traces
use intelligent_trading_syst.Health.Traces.{success, api_error}
use intelligent_trading_syst.Health.Examples.{tripped}
use intelligent_trading_syst.Risk.Budget.{
  BookRiskBudget, Proposal, check_budget, is_within, is_deep, limit_for,
}
use intelligent_trading_syst.Risk.Funding.{evaluate_funding_risk}
use intelligent_trading_syst.Risk.Checks.{RiskEngine, fail}
use intelligent_trading_syst.Risk.Gate.{check, sleeve_of, has_text}
use intelligent_trading_syst.Risk.Limits.{IsWithinBudget, check_budget-IsWithinBudget}
use intelligent_trading_syst.Risk.Breaker.{with_health, cooldown-rejects}

abbrev budget : BookRiskBudget
budget = record {
  book_gross_limit = pos 1200000;
  book_net_limit = pos 1200000;
  strategy_limits = [];
  factor_sleeve_limits = ("beta", pos 1000000) ∷ ("overlay", pos 200000) ∷ [];
  kill_drawdown = pos 150000;
  tolerance = 10;
}

abbrev proposal : Proposal
proposal = record {
  equity = pos 1000;
  current_gross = pos 300;
  current_net = pos 300;
  proposed_notional_delta = pos 150;
  strategy_id = some "trend_overlay";
  strategy_current_notional = pos 0;
  sleeve = some "overlay";
  sleeve_current_notional = pos 0;
  current_drawdown = record { num = negsuc 49; den = 1000 };
  risk_increasing = true;
}

abbrev pub risk : RiskEngine
risk = record {
  config = record {
    position_limit_pct = pos 200000;
    max_positions = 5;
    daily_loss_limit = negsuc 29999;
    weekly_loss_limit = negsuc 49999;
    max_drawdown = negsuc 99999;
    cvar_limit = negsuc 49999;
  };
  strategy_risk_budgets = ("trend", pos 500000) ∷ [];
  exchange_health = none;
  exchange_exposure_limit_pct = some (pos 800000);
  book_risk_budget = none;
  weekly_pnl_pct = pos 0;
  returns_history = [];
}

abbrev signal : Signal
signal = record {
  symbol = "BTC/USDT";
  direction = Direction.long;
  strength = pos 1000000;
  price = pos 110;
  strategy_id = "trend";
  timestamp = 0;
}

-- A long of 10 at 110 in a book worth 11,100.
abbrev portfolio : Portfolio
portfolio = record {
  cash = pos 10000;
  positions = ("BTC/USDT", btc) ∷ [];
  current_drawdown = record { num = negsuc 99; den = 12000 };
  realized_pnl = pos 0;
  daily_baseline = some (pos 11000);
  pending_exposure = pos 0;
}

abbrev pub static_budget : RiskEngine → String → ℤ → ℤ
static_budget e sid pct = pct

abbrev pub no_tail : List ℤ → ℤ
no_tail returns = pos 0

overlay : sleeve_of "Trend_OVERLAY" ≡ some "overlay"
unfolding sleeve_of has_text
overlay = refl

funding_blocked : (evaluate_funding_risk none true (pos 100) "BTC/USDT").blocked ≡ true
unfolding evaluate_funding_risk
funding_blocked = refl

allowed : (check_budget budget proposal).allowed ≡ true
unfolding check_budget is_within is_deep limit_for lookup ◌+ℤ◌ ◌*ℤ◌
allowed = refl

check_budget-IsWithinBudget_example : IsWithinBudget budget proposal
check_budget-IsWithinBudget_example = check_budget-IsWithinBudget budget proposal allowed

cooldown-rejects_example :
    check static_budget no_tail
      (with_health (Traces.run ((success, 2000) ∷ (api_error, 3000) ∷ []) tripped) risk)
      signal
      portfolio
      none
    ≡ fail "exchange_circuit_open"
cooldown-rejects_example =
    cooldown-rejects static_budget no_tail ((success, 2000) ∷ (api_error, 3000) ∷ []) tripped risk
      signal portfolio none refl (omega arith, omega arith, (omega arith, omega arith, tt))

blocked_at_400 :
    (evaluate_funding_risk (some (negsuc 499)) true (pos 400) "BTC/USDT").blocked ≡ true
unfolding evaluate_funding_risk
blocked_at_400 = refl
