-- ===== src/Topology.antt =====
-- proberca/topology: versioned topology snapshots.
pub mod Snapshot
pub mod Store
mod Samples
