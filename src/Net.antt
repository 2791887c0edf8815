-- ===== src/Net.antt =====
-- Retries and rate limits of the exchange's metadata calls (quantflow/common/netretry.py).
pub mod Retry
pub mod Attempts
pub mod Examples
