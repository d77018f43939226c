-- ===== src/Scans.antt =====
-- Background scans of trajectories: crates/trajectory/src/scanner.rs and
-- crates/harness/src/scan.rs. The model that answers a scan, the prompts that it is given and the
-- store's interfaces are parameters.
pub mod Scanner
pub mod Task
pub mod Dispatch
pub mod Run
