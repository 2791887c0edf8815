-- ===== src/Kill.antt =====
-- The kill switch (quantflow/execution/kill_switch.py) and its set of pause reasons
-- (quantflow/common/pause_reasons.py).
-- An entry of `errors` is the name of the failed step; the text of the exception that the program
-- puts after it is not kept. The monitoring sink is output.
pub mod Pauses
pub mod Switch
pub mod Reasons
pub mod Reports
pub mod Flatten
pub mod Examples
