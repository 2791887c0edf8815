-- ===== src/Risk/Funding.antt =====
-- The funding gate (quantflow/signal/funding_risk_gate.py). Rates are whole units of any fixed
-- fraction, and NaN is `none`; the numbers in the reason's text are left out.
use intelligent_trading_syst.Base.{
  ◌≡◌, ◌≤ℤ◌, arith, ℕ, Bool, true, false, not, Option, none, some, String, ℤ, pos, abs, is_neg, ltb,
  if◌then◌else◌,
}

pub record FundingRiskDecision : Type 0 where
  pub blocked : Bool
  pub reason : String
  pub funding_rate : Option ℤ
  pub threshold : ℕ
  pub symbol : String

-- `max(0.0, max_abs)`
abbrev pub threshold_of : ℤ → ℕ
threshold_of max_abs = if is_neg max_abs then 0 else abs max_abs

-- `float(funding_rate or 0.0)`
abbrev rate_or_zero : Option ℤ → ℤ
rate_or_zero none = pos 0
rate_or_zero (some r) = r

unfoldable pub evaluate_funding_risk : Option ℤ → Bool → ℤ → String → FundingRiskDecision
evaluate_funding_risk rate enabled max_abs symbol =
    let answer : Bool × String = if not enabled then (false, "") else elim rate [
      | none ↦ (true, "funding_risk_gate:missing_rate")
      | some r ↦
          if ltb (threshold_of max_abs) (abs r)
          then (true, "funding_risk_gate:abs_rate")
          else (false, "")
    ] in
    record {
      blocked = answer.0;
      reason = answer.1;
      funding_rate = if enabled then rate else some (rate_or_zero rate);
      threshold = threshold_of max_abs;
      symbol = symbol;
    }

-- A wider threshold never blocks more: what the gate blocks at a threshold it blocks at every
-- lower one, for a missing rate and for a disabled gate too.
pub evaluate_funding_risk-threshold :
    (rate : Option ℤ) (enabled : Bool) (low high : ℤ) (symbol : String)
    → low ≤ℤ high
    → (evaluate_funding_risk rate enabled high symbol).blocked ≡ true
    → (evaluate_funding_risk rate enabled low symbol).blocked ≡ true
unfolding evaluate_funding_risk
evaluate_funding_risk-threshold rate enabled low high symbol wider h = ground arith
