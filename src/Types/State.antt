-- ===== src/Types/State.antt =====
-- Snapshots of an agent's environment: crates/types/src/trajectory/state.rs.
use sondera_coding_agent_hoo.Prelude.{Option, List}
use sondera_coding_agent_hoo.Prelude.Text.{Text}
use sondera_coding_agent_hoo.Types.Json.{Json, HashMap}

pub record Snapshot : Type 0 where
  pub snapshot_id : Text
  pub working_dir : Option Text
  pub open_files : List Text
  pub git_branch : Option Text
  pub variables : HashMap Json

pub data State : Type 0 where
  snapshot : Snapshot → State
