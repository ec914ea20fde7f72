-- ===== src/Alerting.antt =====
-- proberca/alerting/state_machine.py: the Healthy/Soft/Hard/Recovery alert machine.
pub mod Types
pub mod Counters
pub mod Triggers
pub mod Alarms
pub mod Transition
pub mod Outputs
pub mod Machine
mod Samples
