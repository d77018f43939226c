-- ===== src/Cedar.antt =====
-- crates/policy/cedar: the Cedar policy engine.
pub mod Path
pub mod Shell
pub mod Verdict
pub mod Entity
pub mod Store
pub mod Url
pub mod Context
pub mod Request
pub mod Harness
