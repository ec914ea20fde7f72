-- ===== src/Live/RunState.antt =====
-- proberca/live/run_state.py: the run state, which is stored with the lease and is the commit point.
pub mod Record
pub mod Memory
pub mod Store
pub mod Writes
pub mod Validity
pub mod Authority
pub mod MemoryRefines
pub mod Codec
pub mod LeaseSteps
pub mod LeaseRefines
pub mod Runs
pub mod Commits
pub mod Fresh
