-- ===== src/Monitoring.antt =====
-- Alerts and session health (quantflow/monitoring), and the guard on outbound URLs
-- (quantflow/common/url_safety.py).
pub mod Urls
pub mod Routing
pub mod Alerts
pub mod Throttle
pub mod Status
pub mod Examples
