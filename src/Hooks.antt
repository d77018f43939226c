-- ===== src/Hooks.antt =====
-- The hooks that host agents call: crates/hooks/core, which the adapters share, and the responses
-- and limits of the adapter for Claude Code, crates/hooks/claude.
pub mod Error
pub mod Runner
pub mod Tool
pub mod Claude
