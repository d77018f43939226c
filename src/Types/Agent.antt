-- ===== src/Types/Agent.antt =====
-- The identity of an agent: `Agent` of crates/types/src/agent.rs.
use sondera_coding_agent_hoo.Prelude.Text.{Text}

pub record Agent : Type 0 where
  pub id : Text
  pub provider : Text
  pub platform : Text
