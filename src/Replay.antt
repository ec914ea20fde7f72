-- ===== src/Replay.antt =====
-- proberca/replay: recorded windows read again.
pub mod Reader
mod Samples
