-- ===== src/Lib.antt =====
-- QuantFlow's trading core: the execution layer, the book that it keeps, and what guards them.
--
-- The program is a quantitative trading system in Python. Signals pass the risk checks and become
-- orders; the execution engine sends them through a gateway, tracks them in the order manager, and
-- applies their fills to the portfolio manager, the one authoritative book. A kill switch stops
-- everything, and a health monitor opens a circuit breaker when the exchange misbehaves.
--
-- Base: Python's dicts, sets, text and integers over the native numbers, with their laws.
-- Models (quantflow/common/models.py): positions, orders, requests, results, signals;
--   Models/Strategies: `strategy_id_constituents`.
-- Validators (quantflow/common/validators.py): the symbol pattern and the quantity check.
-- Orders (quantflow/execution/order_manager.py): `OrderManager` as a record, `track`, `update`,
--   `check_timeouts`, `cancel_order` and `_evict_terminal_if_needed` as functions on it. Eviction,
--   Lifecycle, Timeouts and Finality hold the proofs.
-- Health (quantflow/execution/exchange_health.py): `ExchangeHealthMonitor` with its window and its
--   breaker; Window, Breaker and Traces hold the proofs.
-- Portfolio (quantflow/signal/portfolio.py): `PortfolioManager` with `update_position`, the marks
--   and the drawdown; Portfolio/Pending is the ledger of reservations and Portfolio/Allocation the
--   weights and return histories. Signs, Sums, Equity, Basis, Watermark and Pending/Ledger hold
--   the proofs.
-- Paper (quantflow/execution/paper_gateway.py): State is the gateway, its configuration and its
--   feed, Positions the local view (`_update_position`), Send the order execution (`send_order`);
--   Reduce and Parity hold the proofs.
-- Gateways (quantflow/execution/gateway_base.py): the interface of a gateway as a record of
--   operations on a state of any type, the contract `IsLawful`, and the paper gateway as an
--   implementation.
-- Kill: Pauses (quantflow/common/pause_reasons.py) and Switch (quantflow/execution/kill_switch.py),
--   over any gateway; Reasons, Reports and Flatten hold the proofs.
-- Engine (quantflow/execution/engine.py): Routing has the order router (order_router.py) and the
--   position manager (position_manager.py), Submit `submit` and `_handle_fill`, Updates the order
--   stream (`_apply_order_update`), Desk the cancels, closes, timeouts, marks and the sync. Booking,
--   Booked, Rest, Handled, Replay, Halt, Sync and Flatten hold the proofs.
-- Risk (quantflow/signal): Budget (book_risk_budget.py), Funding (funding_risk_gate.py), and in
--   Checks and Gate the checks of `RiskEngine` (risk_engine.py) with `check` over all of them;
--   Passed, Limits and Breaker hold the proofs.
-- Web (quantflow/web): Bucket is the token bucket and Limits the middleware of rate_limit.py, Guard
--   the checks of security.py; Rate and Origins hold the proofs.
-- Recon (quantflow/reconciliation): Ghosts is ghost_positions.py. Discrepancies is models.py; Daily,
--   Orphans and Reports are `ReconciliationEngine` of engine.py up to `run_daily_reconciliation`.
--   Partition, Severities, Compare and Agreement hold the proofs.
-- Registry: Json is the values of reports and entries. Paths (promotion_path.py), Papers
--   (paper_readiness.py) and Costs (cost_fidelity.py) are the gates of
--   quantflow/strategy/validation, and Store is `ModelRegistry`
--   (quantflow/strategy/model_registry.py) with the block on the AI lane
--   (quantflow/strategy/ai_validation_bypass.py). History holds the proof.
-- Checkpoint (quantflow/execution/state_store.py): Store is the snapshot, `load_checkpoint` and
--   `clear`, Saving the steps of `save_checkpoint`, Sorting the key order of the JSON text; Atomic
--   is the abstract store and the refinement.
-- Net (quantflow/common/netretry.py): Retry is the limiter and `retry_call`, Attempts the proof.
-- Signals (quantflow/signal): Generator is generator.py and Sizer is position_sizer.py; Names and
--   Votes, and Caps, hold the proofs.
-- Monitoring: Routing and Alerts are quantflow/monitoring/alerts.py, Urls is
--   quantflow/common/url_safety.py, Status quantflow/monitoring/session_health.py; Throttle holds
--   the proof.
-- Events (quantflow/common/event_bus.py): the event bus; Dispatch holds the proof.
-- Session (quantflow/strategy/engine.py): the signal path of `TradingSession`, from the gates over
--   the risk check, the size and the reservation to the order, and the funding gate; Recovery is the
--   snapshot, its restoration and its verification, and Duties the release of reservations in the
--   data loop. It uses Risk, Signals, Kill, Portfolio, Engine
--   and Recon. Entries, Settled, Ledger and Restored hold the proofs.
-- Modules named Examples hold test data, runs, and an instance of each theorem that has conditions.
--
-- Numbers. The program computes in floats. Here quantities are whole lots of 1e-10, so that
-- POSITION_EPSILON is one lot, prices are whole ticks of 1e-8, and money is in lot-ticks, of which
-- the same epsilon is 10^8. Rates and weights are in millionths, numbers of a JSON value are in
-- units of 1e-12, and clock readings are milliseconds and come as arguments. A quotient is rounded
-- towards zero where the program divides; every other operation is exact, sums of floats too. NaN
-- is not a number of the model; a baseline of NaN is `none`. Python's integers do not overflow,
-- and nothing here is bounded by a word size. No definition takes fuel: the loops are recursion on
-- the list or dict that they go through, and a retry loop on the attempts that are left.
--
-- State and concurrency. A method takes the state and gives the next one. A method body is one
-- step, and interleavings are sequences of whole calls: what another thread could write in the
-- middle of a method, where the program holds no lock (`OrderManager.update` past its lock,
-- `check_timeouts`), or while it waits for one (the limiter of netretry.py), is not modelled.
-- Where the program shares an order object, the store of the order manager is the object, and what
-- is written to the object is written to the store. A raised exception is `none`, or a result that
-- says so, with the state that it leaves.
--
-- Not modelled: logs and metrics, which are output; the text of exceptions; the live gateway,
-- which calls the exchange's library; the strategies and the loops that feed them, the data layer
-- and the rest of the web application. The percentile behind the value at risk and the volatility
-- scaling of a budget are numpy's, and the risk engine takes them as functions; what the
-- percentile cache holds when a check starts is part of the scaling that the check is given. A
-- query for positions that raises no `GatewayError` ends the sync, and a malformed push that
-- raises midway keeps what it has stamped on the order; neither is modelled.
pub mod Base
pub mod Models
pub mod Orders
pub mod Health
pub mod Portfolio
pub mod Validators
pub mod Paper
pub mod Risk
pub mod Gateways
pub mod Kill
pub mod Engine
pub mod Web
pub mod Recon
pub mod Registry
pub mod Checkpoint
pub mod Net
pub mod Signals
pub mod Monitoring
pub mod Events
pub mod Session
