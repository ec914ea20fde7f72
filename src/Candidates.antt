-- ===== src/Candidates.antt =====
-- proberca/candidates/builder.py: the services around an alert that the analysis looks at.
pub mod Relation
pub mod Search
pub mod Builder
pub mod Services
pub mod Limits
mod Samples
