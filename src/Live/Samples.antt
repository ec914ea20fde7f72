-- ===== src/Live/Samples.antt =====
-- proberca/live: concrete schedulers, replicas, transactions and journals.
pub mod Windows
pub mod Replicas
pub mod Commits
pub mod Watchdogs
pub mod Gates
mod RunStates
mod Trackers
