-- ===== src/Live.antt =====
-- proberca/live: the run-time layer that turns the clock into numbered, committed windows.
pub mod RunState
pub mod Lease
pub mod Leader
pub mod Scheduler
pub mod Transaction
pub mod Sequence
pub mod Watchdog
pub mod Gate
pub mod Progress
pub mod Coordinator
mod Samples
