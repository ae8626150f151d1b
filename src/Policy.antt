-- ===== src/Policy.antt =====
-- pkg/policy: which repositories, revisions and features a workload may mount.
pub mod Types
pub mod Match
pub mod Revision
pub mod Evaluate
pub mod Defaults
