-- ===== src/Tests.antt =====
-- Runs of the modelled code on concrete inputs, and the theorems applied to them.
mod Shell
mod Harness
mod Small
mod Ledger
mod Hooks
mod Gate
