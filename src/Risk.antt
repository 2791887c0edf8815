-- ===== src/Risk.antt =====
-- Risk checks before an order goes out: the risk engine (quantflow/signal/risk_engine.py), the
-- book risk budget (book_risk_budget.py) and the funding gate (funding_risk_gate.py).
pub mod Budget
pub mod Funding
pub mod Checks
pub mod Passed
pub mod Limits
pub mod Breaker
pub mod Gate
pub mod Examples
