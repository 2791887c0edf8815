-- ===== src/Paper.antt =====
-- The paper gateway (quantflow/execution/paper_gateway.py): a simulated exchange that fills at
-- once. Its mock feed loop is input and output.
pub mod State
pub mod Positions
pub mod Send
pub mod Reduce
pub mod Parity
pub mod Examples
