-- ===== src/Hooks/Claude.antt =====
-- The adapter for Claude Code: crates/hooks/claude/src.
pub mod Response
pub mod FailClosed
pub mod Truncate
pub mod Action
pub mod Handlers
pub mod Lifecycle
pub mod Run
