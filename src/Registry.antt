-- ===== src/Registry.antt =====
-- The model registry (quantflow/strategy/model_registry.py) and the gates before it
-- (quantflow/strategy/validation).
pub mod Json
pub mod Paths
pub mod Costs
pub mod Papers
pub mod Store
pub mod History
pub mod Examples
