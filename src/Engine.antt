-- ===== src/Engine.antt =====
-- The execution engine (quantflow/execution/engine.py) with the order router
-- (order_router.py) and the position manager (position_manager.py).
pub mod Routing
pub mod Submit
pub mod Updates
pub mod Desk
pub mod Halt
pub mod Booking
pub mod Booked
pub mod Rest
pub mod Handled
pub mod Replay
pub mod Sync
pub mod Flatten
pub mod Examples
