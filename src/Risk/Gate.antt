-- ===== src/Risk/Gate.antt =====
-- The check pipeline of the risk engine (quantflow/signal/risk_engine.py): the book budget, the
-- strategy budgets, the value at risk, and `check`, where the first failure decides.
use Prim.Native.Char.{code}
use intelligent_trading_syst.Base.{
  ℕ, ◌+◌, ◌*◌, Bool, true, false, not, ◌&&◌, ◌||◌, Option, none, some, List, [], ◌∷◌, String, ◌==◌,
  Dict, lookup, length, ℤ, pos, ◌+ℤ◌, ◌*ℤ◌, abs, is_pos, leb, ltb, eqb, leb_ℤ, ltb_ℤ, div_ℤ,
  str_append, ◌++◌, if◌then◌else◌,
}
use intelligent_trading_syst.Models.{Position, Portfolio, Signal, RiskDecision, portfolio_value}
use intelligent_trading_syst.Models.Strategies.{strategy_id_constituents}
use intelligent_trading_syst.Portfolio.Pending.{PendingView}
use intelligent_trading_syst.Risk.Budget.{Proposal, check_budget, million}
use intelligent_trading_syst.Risk.Checks.{
  RiskEngine, pass, fail, is_long, check_exchange_circuit, check_exchange_exposure, exposure_of,
  net_of, pending_sum, clipped_strength, check_position_limit, check_portfolio_limit,
  check_daily_loss, check_weekly_loss, check_drawdown_limit,
}

-- Whether the text begins with `needle`, capital letters counting as small ones.
unfoldable pub begins_with : String → String → Bool
begins_with String.[] s = true
begins_with (String.◌∷◌ c needle) String.[] = false
begins_with (String.◌∷◌ c needle) (String.◌∷◌ d s) =
    let rest = begins_with needle s in
    (eqb (code c) (code d) || leb b'A' (code d) && leb (code d) b'Z' && eqb (code c) (code d + 32))
    && rest

-- `needle in s.lower()`, for a needle of small letters.
unfoldable pub has_text : String → String → Bool
unfolding begins_with
has_text needle String.[] = begins_with needle String.[]
has_text needle (String.◌∷◌ c s) =
    let rest = has_text needle s in begins_with needle (String.◌∷◌ c s) || rest

-- The sleeve that a strategy id names.
unfoldable pub sleeve_of : String → Option String
unfolding has_text
sleeve_of sid =
    if has_text "overlay" sid
    then some "overlay"
    else if has_text "beta" sid || has_text "hodl" sid
    then some "beta"
    else none

-- What a signal asks of the book: its strength as a share of the equity, in lot-ticks.
unfoldable pub proposal_of : Signal → Portfolio → Option PendingView → ℤ → Proposal
proposal_of signal portfolio pending proposed = record {
  equity = portfolio_value portfolio;
  current_gross = exposure_of portfolio.positions +ℤ pending_sum pending;
  current_net = net_of portfolio.positions +ℤ pending_sum pending;
  proposed_notional_delta = proposed;
  strategy_id = some signal.strategy_id;
  strategy_current_notional = pos 0;
  sleeve = sleeve_of signal.strategy_id;
  sleeve_current_notional = pos 0;
  current_drawdown = portfolio.current_drawdown;
  risk_increasing = true;
}

unfoldable pub check_book_risk_budget :
    RiskEngine → Signal → Portfolio → Option PendingView → RiskDecision
check_book_risk_budget e signal portfolio pending = elim e.book_risk_budget [
  | none ↦ pass
  | some budget ↦
      let verdict = check_budget budget (
        proposal_of signal portfolio pending
          (div_ℤ (portfolio_value portfolio *ℤ clipped_strength signal.strength) million)) in
      if not (is_long signal.direction) || not (is_pos (portfolio_value portfolio))
      then pass
      else if verdict.allowed
      then pass
      else fail (str_append "book_risk_budget:" verdict.reason)
]

-- `strategy_id_constituents(sid) or [sid]`
unfoldable pub budget_keys : String → List String
budget_keys sid = elim (strategy_id_constituents sid) [ [] ↦ sid ∷ [] | key ∷ keys ↦ key ∷ keys ]

unfoldable pub occurrences : String → List String → ℕ
occurrences key [] = 0
occurrences key (k ∷ keys) = let rest = occurrences key keys in if k == key then rest + 1 else rest

-- The exposure of the positions that count towards a strategy, once for each mention.
unfoldable pub strategy_exposure : String → Dict Position → ℕ
strategy_exposure key [] = 0
strategy_exposure key ((k, p) ∷ positions) =
    let rest = strategy_exposure key positions in
    if is_pos p.current_price
    then occurrences key (budget_keys p.strategy_id) * (abs p.quantity * abs p.current_price) + rest
    else rest

unfoldable pub first_failure : List RiskDecision → RiskDecision
first_failure [] = pass
first_failure (d ∷ decisions) = let rest = first_failure decisions in if d.passed then rest else d

module _ (scale_budget_pct : RiskEngine → String → ℤ → ℤ) (cvar : List ℤ → ℤ) where
  -- The loop over the budgeted keys.
  unfoldable pub budgets_hold : RiskEngine → Portfolio → List String → Bool
  budgets_hold e portfolio [] = true
  budgets_hold e portfolio (key ∷ keys) =
      let rest = budgets_hold e portfolio keys in
      elim (lookup key e.strategy_risk_budgets) [
        | none ↦ rest
        | some pct ↦
            if leb_ℤ (portfolio_value portfolio *ℤ scale_budget_pct e key pct)
              (pos (strategy_exposure key portfolio.positions * million))
            then false
            else rest
      ]

  unfoldable pub check_strategy_budget : RiskEngine → Signal → Portfolio → RiskDecision
  unfolding budgets_hold
  check_strategy_budget e signal portfolio =
      if not (is_pos (portfolio_value portfolio))
      then pass
      else if budgets_hold e portfolio (budget_keys signal.strategy_id)
      then pass
      else fail "strategy_budget"

  unfoldable pub check_var : RiskEngine → RiskDecision
  check_var e =
      if ltb (length e.returns_history) 30
      then pass
      else if ltb_ℤ (cvar e.returns_history) e.config.cvar_limit
      then fail "var_breach"
      else pass

  -- The decisions of `_checks`, in their order.
  abbrev pub decisions : RiskEngine → Signal → Portfolio → Option PendingView → List RiskDecision
  decisions e signal portfolio pending =
      check_exchange_circuit e
      ∷ check_exchange_exposure e signal portfolio pending
      ∷ check_book_risk_budget e signal portfolio pending
      ∷ check_position_limit e signal portfolio pending
      ∷ check_portfolio_limit e signal portfolio pending
      ∷ check_strategy_budget e signal portfolio
      ∷ check_daily_loss e portfolio
      ∷ check_weekly_loss e
      ∷ check_drawdown_limit e portfolio
      ∷ check_var e
      ∷ []

  unfoldable pub check : RiskEngine → Signal → Portfolio → Option PendingView → RiskDecision
  unfolding first_failure
  check e signal portfolio pending = first_failure (decisions e signal portfolio pending)

-- `add_return`, on a history of at most 500, oldest first.
unfoldable pub drop_oldest : List ℤ → List ℤ
drop_oldest [] = []
drop_oldest (x ∷ xs) = xs

unfoldable pub add_return_to : ℤ → RiskEngine → RiskEngine
unfolding drop_oldest
add_return_to ret e = record e {
  returns_history =
      (if leb 500 (length e.returns_history)
        then drop_oldest e.returns_history
        else e.returns_history)
      ++ (ret ∷ []);
}

unfoldable pub set_weekly_pnl : ℤ → RiskEngine → RiskEngine
set_weekly_pnl pct e = record e { weekly_pnl_pct = pct }

unfoldable pub reset : RiskEngine → RiskEngine
reset e = record e { returns_history = []; weekly_pnl_pct = pos 0 }
