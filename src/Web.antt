-- ===== src/Web.antt =====
-- The guards of the web application (quantflow/web/security.py) and its rate limiter
-- (quantflow/web/rate_limit.py).
pub mod Guard
pub mod Origins
pub mod Limits
pub mod Bucket
pub mod Rate
pub mod Examples
