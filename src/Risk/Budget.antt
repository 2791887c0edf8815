-- ===== src/Risk/Budget.antt =====
-- The book risk budget (quantflow/signal/book_risk_budget.py).
-- Limits are in millionths of the equity. `tolerance` is the program's 1e-9, in lot-ticks. The
-- numbers that a layer of the answer carries for the log are left out.
use intelligent_trading_syst.Base.{
  ℕ, ◌+◌, ◌*◌, Bool, true, false, not, ◌&&◌, Option, none, some, List, [], ◌∷◌, ◌++◌, String, ◌==◌,
  Dict, lookup, ℤ, pos, ◌+ℤ◌, ◌*ℤ◌, abs, is_pos, leb_ℤ, if◌then◌else◌,
}
use intelligent_trading_syst.Models.{Fraction}

pub record BookRiskBudget : Type 0 where
  pub book_gross_limit : ℤ
  pub book_net_limit : ℤ
  pub strategy_limits : Dict ℤ
  pub factor_sleeve_limits : Dict ℤ
  pub kill_drawdown : ℤ
  pub tolerance : ℕ

-- The keyword arguments of `check`.
pub record Proposal : Type 0 where
  pub equity : ℤ
  pub current_gross : ℤ
  pub current_net : ℤ
  pub proposed_notional_delta : ℤ
  pub strategy_id : Option String
  pub strategy_current_notional : ℤ
  pub sleeve : Option String
  pub sleeve_current_notional : ℤ
  pub current_drawdown : Fraction
  pub risk_increasing : Bool

pub record Verdict : Type 0 where
  pub allowed : Bool
  pub reason : String
  pub layers : List (String × Bool)

abbrev pub million : ℕ
million = 1000000

-- value <= limit * equity + 1e-9, for a limit in millionths.
unfoldable pub is_within : ℕ → ℤ → ℤ → ℕ → Bool
is_within tolerance limit equity value =
    leb_ℤ (pos (value * million)) (limit *ℤ equity +ℤ pos (tolerance * million))

-- abs(drawdown) >= kill_drawdown
unfoldable pub is_deep : BookRiskBudget → Fraction → Bool
is_deep b dd = leb_ℤ (b.kill_drawdown *ℤ pos dd.den) (pos (abs dd.num * million))

abbrev pub gross_ok : BookRiskBudget → Proposal → Bool
gross_ok b r =
    is_within b.tolerance b.book_gross_limit r.equity
      (abs r.current_gross + abs r.proposed_notional_delta)

abbrev pub net_ok : BookRiskBudget → Proposal → Bool
net_ok b r =
    is_within b.tolerance b.book_net_limit r.equity
      (abs (r.current_net +ℤ r.proposed_notional_delta))

-- The limit that a name has, if it is given, not empty and in the table.
unfoldable pub limit_for : Option String → Dict ℤ → Option ℤ
limit_for none limits = none
limit_for (some name) limits = if name == "" then none else lookup name limits

abbrev pub capped_ok : BookRiskBudget → ℤ → Option ℤ → ℤ → ℤ → Bool
capped_ok b equity limit current delta = elim limit [
  | none ↦ true
  | some l ↦ is_within b.tolerance l equity (abs (current +ℤ delta))
]

abbrev layer : List (String × Bool) → String → Bool → List (String × Bool)
layer done name ok = done ++ ((name, ok) ∷ [])

abbrev refuse : String → List (String × Bool) → Verdict
refuse reason layers = record { allowed = false; reason = reason; layers = layers }

unfoldable pub sleeve_stage : BookRiskBudget → Proposal → List (String × Bool) → Verdict
sleeve_stage b r done = elim (limit_for r.sleeve b.factor_sleeve_limits) [
  | none ↦ record { allowed = true; reason = "ok"; layers = done }
  | some limit ↦
      if is_within b.tolerance limit r.equity
        (abs (r.sleeve_current_notional +ℤ r.proposed_notional_delta))
      then record { allowed = true; reason = "ok"; layers = layer done "factor_sleeve" true }
      else refuse "sleeve_limit" (layer done "factor_sleeve" false)
]

unfoldable pub strategy_stage : BookRiskBudget → Proposal → List (String × Bool) → Verdict
unfolding sleeve_stage
strategy_stage b r done = elim (limit_for r.strategy_id b.strategy_limits) [
  | none ↦ sleeve_stage b r done
  | some limit ↦
      if is_within b.tolerance limit r.equity
        (abs (r.strategy_current_notional +ℤ r.proposed_notional_delta))
      then sleeve_stage b r (layer done "strategy" true)
      else refuse "strategy_limit" (layer done "strategy" false)
]

unfoldable pub net_stage : BookRiskBudget → Proposal → List (String × Bool) → Verdict
unfolding strategy_stage
net_stage b r done =
    if net_ok b r
    then strategy_stage b r (layer done "book_net" true)
    else refuse "book_net" (layer done "book_net" false)

unfoldable pub gross_stage : BookRiskBudget → Proposal → List (String × Bool) → Verdict
unfolding net_stage
gross_stage b r done =
    if gross_ok b r
    then net_stage b r (layer done "book_gross" true)
    else refuse "book_gross" (layer done "book_gross" false)

unfoldable pub check_budget : BookRiskBudget → Proposal → Verdict
unfolding gross_stage is_deep
check_budget b r =
    if not (is_pos r.equity)
    then refuse "non_positive_equity" []
    else if r.risk_increasing && is_deep b r.current_drawdown
    then refuse "kill_drawdown" (("kill_drawdown", false) ∷ [])
    else gross_stage b r (("kill_drawdown", true) ∷ [])
