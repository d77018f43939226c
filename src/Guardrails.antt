-- ===== src/Guardrails.antt =====
-- The guardrails that describe content to the policies: crates/guardrails (ifc, signature, policy).
pub mod Label
pub mod Signature
pub mod Violations
