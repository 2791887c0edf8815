-- ===== src/Checkpoint.antt =====
-- The checkpoint store of a trading session (quantflow/execution/state_store.py).
pub mod Sorting
pub mod Store
pub mod Saving
pub mod Atomic
pub mod Examples
