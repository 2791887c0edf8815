-- ===== src/Signals.antt =====
-- The signal generator (quantflow/signal/generator.py) and the position sizer
-- (quantflow/signal/position_sizer.py).
pub mod Generator
pub mod Names
pub mod Votes
pub mod Sizer
pub mod Caps
pub mod Examples
