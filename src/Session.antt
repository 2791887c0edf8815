-- ===== src/Session.antt =====
-- The signal path of a trading session (quantflow/strategy/engine.py): the gates before an entry,
-- the size, the reservation, the order, and the close of a position for a FLAT signal.
-- `_signal_lock` makes a signal one step. `events` and `alerts` have the newest entry first; the
-- logs, the latency readings and the sink's metrics are output. The identifier of an order comes
-- as an argument, and a quantity is rounded to whole lots.
pub mod Settled
pub mod Ledger
pub mod Entries
pub mod Recovery
pub mod Duties
pub mod Restored
mod Examples
use intelligent_trading_syst.Base.{
  ℕ, ◌/◌, Bool, true, false, not, ◌&&◌, ◌==◌, insert, Option, none, some, List, [], ◌∷◌, String,
  Dict, lookup, ℤ, pos, ◌-ℤ◌, ◌*ℤ◌, abs, is_pos, is_neg, ltb, eqb, if◌then◌else◌,
}
use intelligent_trading_syst.Models.{
  Direction, OrderSide, OrderStatus, Order, OrderRequest, Position, Portfolio, RiskDecision, Signal,
  position_epsilon,
}
use intelligent_trading_syst.Portfolio.{PortfolioManager}
use intelligent_trading_syst.Portfolio.Allocation.{get_allocation_for_signal}
use intelligent_trading_syst.Portfolio.Pending.{
  reserve, confirm, release, partial_confirm, pending_view, total_pending_exposure,
}
use intelligent_trading_syst.Risk.Checks.{RiskEngine}
use intelligent_trading_syst.Risk.Gate.{check}
use intelligent_trading_syst.Risk.Funding.{evaluate_funding_risk}
use intelligent_trading_syst.Kill.Pauses.{
  PauseReasonSet, add_reason, remove_reason, is_paused, all_reasons,
}
use intelligent_trading_syst.Gateways.{GatewayBase}
use intelligent_trading_syst.Engine.Submit.{Engine, submit_order}
use intelligent_trading_syst.Signals.Sizer.{PositionSizer, size_order}

-- The risk and signal events. The text of a pause lists its reasons.
pub data SessionEvent : Type 0 where
  recovery_unverified : String → SessionEvent
  paused : List String → String → SessionEvent
  refused : String → String → SessionEvent
  accepted : Signal → SessionEvent
  funding_blocked : String → String → SessionEvent

-- `kill_requests` are the activations of the kill switch that a task was started for. The
-- funding rates are in millionths.
pub record TradingSession (G : Type 0) : Type 0 where
  pub engine : Engine G
  pub risk_engine : RiskEngine
  pub position_sizer : PositionSizer
  pub risk_pauses : PauseReasonSet
  pub recovery_verified : Bool
  pub strategy_win_rates : Dict ℤ
  pub funding_risk_gate_enabled : Bool
  pub max_funding_rate_abs : ℤ
  pub funding_risk_gate_kill : Bool
  pub last_funding_rate : Dict (Option ℤ)
  pub kill_requests : List String
  pub events : List SessionEvent
  pub alerts : List String

-- The `portfolio` property of the portfolio manager.
unfoldable pub portfolio_of : PortfolioManager → Portfolio
portfolio_of pm = record {
  cash = pm.cash;
  positions = pm.positions;
  current_drawdown = pm.current_drawdown;
  realized_pnl = pm.realized_pnl;
  daily_baseline = pm.daily_baseline;
  pending_exposure = total_pending_exposure pm;
}

abbrev pub is_exit : Direction → Bool
is_exit Direction.flat = true
is_exit _ = false

abbrev pub side_of : Direction → OrderSide
side_of Direction.long = OrderSide.buy
side_of _ = OrderSide.sell

-- `size / signal.price`, for a price that is not zero.
unfoldable pub quantity_of : ℕ → ℤ → ℤ
quantity_of size price =
    if is_neg price then pos 0 -ℤ pos (size / abs price) else pos (size / abs price)

unfoldable pub entry_request : ℕ → Signal → OrderRequest
unfolding quantity_of
entry_request size signal = record {
  symbol = signal.symbol;
  side = side_of signal.direction;
  order_type = "market";
  quantity = quantity_of size signal.price;
  price = none;
  strategy_id = signal.strategy_id;
  params = [];
}

unfoldable pub close_request : Position → Signal → OrderRequest
close_request p signal = record {
  symbol = signal.symbol;
  side = if is_pos p.quantity then OrderSide.sell else OrderSide.buy;
  order_type = "market";
  quantity = pos (abs p.quantity);
  price = none;
  strategy_id = signal.strategy_id;
  params = ("reduceOnly", true) ∷ [];
}

abbrev pub with_book : {G : Type 0} → (PortfolioManager → PortfolioManager) → Engine G → Engine G
with_book f e = record e { portfolio = f e.portfolio }

-- What the status of the order does to its reservation, where `filled` is the notional so far.
unfoldable pub settle_by : OrderStatus → String → ℤ → PortfolioManager → PortfolioManager
settle_by OrderStatus.filled id filled pm = confirm id pm
settle_by OrderStatus.partial id filled pm = partial_confirm id filled pm
settle_by OrderStatus.rejected id filled pm = release id pm
settle_by _ id filled pm = pm

unfoldable pub settle_pending : String → Order → PortfolioManager → PortfolioManager
unfolding settle_by
settle_pending id order pm =
    settle_by order.status id (order.filled_quantity *ℤ order.filled_price) pm

abbrev pub with_event : {G : Type 0} → SessionEvent → TradingSession G → TradingSession G
with_event event s = record s { events = event ∷ s.events }

-- A step and whether it raised.
abbrev pub Step : Type 0 → Type 0
Step G = TradingSession G × Bool

-- `max_funding_rate_abs or 0.001`
abbrev pub rate_limit : ℤ → ℤ
rate_limit r = if eqb (abs r) 0 then pos 1000 else r

-- `decision.reason or REASON`
abbrev pub reason_or : String → String → String
reason_or reason other = if reason == "" then other else reason

unfoldable pub request_kill : {G : Type 0} → String → TradingSession G → TradingSession G
request_kill reason s = elim s.engine.kill_switch [
  | none ↦ s
  | some ks ↦
      if s.funding_risk_gate_kill && not ks.active
      then record s { kill_requests = reason ∷ s.kill_requests }
      else s
]

unfoldable pub apply_funding_risk_gate :
    {G : Type 0} → String → Option ℤ → TradingSession G → TradingSession G
unfolding request_kill
apply_funding_risk_gate symbol rate s =
    let decision =
      evaluate_funding_risk rate s.funding_risk_gate_enabled (rate_limit s.max_funding_rate_abs)
        symbol in
    if not s.funding_risk_gate_enabled
    then s
    else if decision.blocked
    then request_kill (reason_or decision.reason "funding_risk_gate") (
        with_event (funding_blocked decision.reason symbol)
          (record s { risk_pauses = add_reason "funding_risk_gate" s.risk_pauses }))
    else record s { risk_pauses = remove_reason "funding_risk_gate" s.risk_pauses }

unfoldable pub note_funding_rate :
    {G : Type 0} → String → Option ℤ → TradingSession G → TradingSession G
unfolding apply_funding_risk_gate
note_funding_rate symbol rate s =
    apply_funding_risk_gate symbol rate
      (record s { last_funding_rate = insert symbol rate s.last_funding_rate })

-- The end of an entry: a submission that raises releases the reservation.
unfoldable pub conclude_entry :
    {G : Type 0} → String → Engine G → TradingSession G → Option (Engine G × Order) → Step G
unfolding settle_pending
conclude_entry id reserved s none = (record s { engine = with_book (release id) reserved }, true)
conclude_entry id reserved s (some answer) =
    (record s { engine = with_book (settle_pending id answer.1) answer.0 }, false)

abbrev pub risk_decision_of :
    {G : Type 0}
    → (RiskEngine → String → ℤ → ℤ)
    → (List ℤ → ℤ)
    → Signal
    → TradingSession G
    → RiskDecision
risk_decision_of scale_budget_pct cvar signal s =
    check scale_budget_pct cvar s.risk_engine signal (portfolio_of s.engine.portfolio)
      (some (pending_view s.engine.portfolio))

-- The size, with the default win rate and ratio of `size`.
abbrev pub size_of : {G : Type 0} → (List ℤ → ℕ) → (Signal → ℤ) → Signal → TradingSession G → ℕ
size_of deviation reference signal s =
    size_order deviation s.position_sizer signal (portfolio_of s.engine.portfolio) (pos 500000)
      (pos 2000000) s.strategy_win_rates
      (get_allocation_for_signal signal.strategy_id signal.symbol s.engine.portfolio)
      (reference signal)

module _ {G : Type 0} (ops : GatewayBase G) (now : ℕ) where
  -- `none` of `submit_order` is the RuntimeError of an engine that was not started.
  unfoldable pub close_position_for_signal : Signal → TradingSession G → Step G
  unfolding close_request
  close_position_for_signal signal s = elim (lookup signal.symbol s.engine.portfolio.positions) [
    | none ↦ (s, false)
    | some p ↦
        if ltb (abs p.quantity) position_epsilon
        then (s, false)
        else elim (submit_order ops now (close_request p signal) s.engine) [
          | none ↦ (s, true)
          | some answer ↦ (record s { engine = answer.0 }, false)
        ]
  ]

  -- The reservation and the order.
  unfoldable pub submit_entry : String → ℕ → Signal → TradingSession G → Step G
  unfolding conclude_entry entry_request
  submit_entry id size signal s =
      let reserved =
        with_book (reserve id signal.symbol (pos size) signal.strategy_id now) s.engine in
      conclude_entry id reserved s (submit_order ops now (entry_request size signal) reserved)

  module _ (scale_budget_pct : RiskEngine → String → ℤ → ℤ) (cvar : List ℤ → ℤ)
      (deviation : List ℤ → ℕ) (reference : Signal → ℤ) where
    -- Past the risk check. A price of zero raises before anything is reserved.
    unfoldable pub size_entry : String → Signal → TradingSession G → Step G
    unfolding submit_entry
    size_entry id signal s =
        let size = size_of deviation reference signal s in
        let entered = submit_entry id size signal (with_event (accepted signal) s) in
        if eqb size 0
        then (with_event (accepted signal) s, false)
        else if eqb (abs signal.price) 0
        then (with_event (accepted signal) s, true)
        else entered

    unfoldable pub process_signal : String → Signal → TradingSession G → Step G
    unfolding close_position_for_signal size_entry
    process_signal id signal s =
        let decision = risk_decision_of scale_budget_pct cvar signal s in
        if is_exit signal.direction
        then close_position_for_signal signal s
        else if not s.recovery_verified
        then (with_event (recovery_unverified signal.strategy_id) s, false)
        else if is_paused s.risk_pauses
        then (with_event (paused (all_reasons s.risk_pauses) signal.strategy_id) s, false)
        else if not decision.passed
        then (
          with_event (refused decision.reason signal.strategy_id)
              (record s { alerts = decision.reason ∷ s.alerts }),
          false,
        )
        else size_entry id signal s
