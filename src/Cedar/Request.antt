-- ===== src/Cedar/Request.antt =====
-- From an event to a Cedar request: `build_request` and `mark_trajectory_label` of
-- crates/policy/cedar/src/transform.rs.
--
-- What the method calls outside this crate and its guardrails is the record `Outside`.
pub mod Targets
pub mod Build
pub mod Laws
pub mod Steps
pub mod Marks
use sondera_coding_agent_hoo.Prelude.{
  ℕ, Bool, true, false, not, Option, none, some, List, [], ◌∷◌, ◌++◌, if◌then◌else◌, leb,
}
use sondera_coding_agent_hoo.Prelude.Text.{Text, codes, is_empty}
use sondera_coding_agent_hoo.Prelude.Unicode.{Unicode}
use sondera_coding_agent_hoo.Types.Json.{Json, as_str}
use sondera_coding_agent_hoo.Types.Action.{
  ToolCall, ShellCommand, WebFetch, FileOpType, FileOperation, read, write, edit, delete, tool_call,
  shell_command, web_fetch, file_operation,
}
use sondera_coding_agent_hoo.Types.Observation.{
  PromptRole, Prompt, ToolOutput, ShellCommandOutput, WebFetchOutput, FileOperationResult, user,
  system, assistant, prompt_shown, tool_output, shell_command_output, web_fetch_output,
  file_operation_result,
}
use sondera_coding_agent_hoo.Types.Event.{Event, TrajectoryEvent, action, observation}
use sondera_coding_agent_hoo.Guardrails.Label.{Label, Classified, level, serde_name}
use sondera_coding_agent_hoo.Guardrails.Signature.{Match, scan}
use sondera_coding_agent_hoo.Guardrails.Violations.{PolicyClassification}
use sondera_coding_agent_hoo.Cedar.Path.{normalize_path_value}
use sondera_coding_agent_hoo.Cedar.Shell.Node.{Tree}
use sondera_coding_agent_hoo.Cedar.Shell.Walk.{analyze_shell_command}
use sondera_coding_agent_hoo.Cedar.Url.{Url, parse_url}
use sondera_coding_agent_hoo.Cedar.Context.{
  Timed, fields, natural, texts, workspace_context, classify_label, classify_policy, policy_json,
  signature_json, shell_json, url_json,
}
use sondera_coding_agent_hoo.Cedar.Entity.{
  Uid, Value, Entity, Trajectory, euid, new_entity, with_attr, parent_uid, new_trajectory,
  into_entity, from_entity, increment,
}
use sondera_coding_agent_hoo.Cedar.Store.{
  Db, Faults, Result, Outcome, ok, err, and_then, upsert, update_entity,
}

-- The tables of the standard library, the YARA scanner, the two models, the parsers of tree-sitter
-- and of the `url` crate, `serde_json::to_string` and `EntityUid::to_json_value`.
pub record Outside : Type 0 where
  pub unicode : Unicode
  pub scanner : Text → Option (List Match)
  pub data_model : Option (Text → Timed Classified)
  pub policy_model : Option (Text → Timed (Option PolicyClassification))
  pub parse_shell : Text → Option Tree
  pub parse_url : Text → Option Url
  pub json_text : Json → Text
  pub uid_json : Uid → Json

pub record Request : Type 0 where
  pub principal : Uid
  pub action_id : Uid
  pub resource : Uid
  pub context : Json

raised : Label → Entity → Option Entity
raised label e =
    let t = from_entity e in
    if leb (level label) (level t.label)
    then none
    else some (into_entity (record t { label = label }))

-- The closure that `mark_trajectory_label` hands to `update_entity`.
unfoldable pub raise_label : Label → Option Entity → Option Entity
unfolding raised from_entity into_entity
raise_label label none = none
raise_label label (some e) = raised label e

-- The closure that counts a step.
unfoldable pub count_step : Text → Option Entity → Option Entity
unfolding from_entity into_entity new_trajectory
count_step id existing =
    let t : Trajectory = elim existing [ none ↦ new_trajectory id | some e ↦ from_entity e ] in
    some (into_entity (record t { step_count = increment t.step_count }))

unfoldable pub op_name : FileOpType → Text
op_name read = codes "Read"
op_name write = codes "Write"
op_name edit = codes "Edit"
op_name delete = codes "Delete"

-- `prompt.role.to_string().to_lowercase()`.
unfoldable pub role_name : PromptRole → Text
role_name user = codes "user"
role_name system = codes "system"
role_name assistant = codes "assistant"

abbrev pub or_empty : Option Text → Text
or_empty none = []
or_empty (some t) = t

abbrev and_line : Text → Option Text → Text
and_line s none = s
and_line s (some t) = s ++ (b'\n' ∷ t)

-- The content that the guardrails judge.
unfoldable pub scannable : FileOperation → Text
scannable fo = and_line (and_line fo.path fo.content) fo.old_content

-- Action, resource and context of a request.
pub record Target : Type 0 where
  pub action_id : Uid
  pub resource : Uid
  pub context : List (Text × Json)

abbrev pub trajectory_uid : Event → Uid
trajectory_uid event = euid (codes "Trajectory") event.trajectory_id
