-- ===== src/Execution.antt =====
-- execution.py: the tools that spend credits.
pub mod Tasks
pub mod Inputs
pub mod Submit
pub mod Results
pub mod Request
pub mod Status
