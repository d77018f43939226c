-- ===== src/Types.antt =====
-- The shared data model of crates/types: policies and verdicts, and the events of a trajectory.
pub mod Json
pub mod Policy
pub mod Guardrails
pub mod Agent
pub mod Action
pub mod Observation
pub mod Scan
pub mod State
pub mod Control
pub mod Message
pub mod Status
pub mod Page
pub mod Summary
pub mod Event
pub mod Redact
