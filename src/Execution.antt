-- ===== src/Execution.antt =====
-- server/internal/execution: the pipeline from a signal to an order, a watched position and its exit.
pub mod State
pub mod Frames
pub mod Outcomes
pub mod Poll
pub mod Entry
pub mod Exit
pub mod Monitor
pub mod Process
pub mod Coherence
pub mod Runs
pub mod Live
pub mod Simulated
