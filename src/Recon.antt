-- ===== src/Recon.antt =====
-- Reconciliation of the book with the exchange (quantflow/reconciliation).
pub mod Ghosts
pub mod Partition
pub mod Discrepancies
pub mod Daily
pub mod Orphans
pub mod Reports
pub mod Severities
pub mod Compare
pub mod Agreement
pub mod Examples
