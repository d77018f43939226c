-- ===== src/Types/Observation.antt =====
-- What an agent sees: crates/types/src/trajectory/observation.rs.
use sondera_coding_agent_hoo.Prelude.{Bool, Option}
use sondera_coding_agent_hoo.Prelude.Text.{Text}
use sondera_coding_agent_hoo.Prelude.Int.{ℤ}
use sondera_coding_agent_hoo.Types.Json.{Json}

pub data PromptRole : Type 0 where
  user system assistant : PromptRole

pub record Prompt : Type 0 where
  pub content : Text
  pub role : PromptRole

pub record Thought : Type 0 where
  pub thought : Text

pub record ToolOutput : Type 0 where
  pub call_id : Text
  pub success : Bool
  pub output : Json
  pub error : Option Text

pub record ShellCommandOutput : Type 0 where
  pub call_id : Text
  pub exit_code : ℤ
  pub stdout : Text
  pub stderr : Text

pub record WebFetchOutput : Type 0 where
  pub call_id : Text
  pub url : Text
  pub code : ℤ
  pub result : Text

pub record FileOperationResult : Type 0 where
  pub call_id : Text
  pub success : Bool
  pub path : Option Text
  pub content : Option Text
  pub error : Option Text

pub data Observation : Type 0 where
  prompt_shown : Prompt → Observation
  thought_had : Thought → Observation
  tool_output : ToolOutput → Observation
  shell_command_output : ShellCommandOutput → Observation
  web_fetch_output : WebFetchOutput → Observation
  file_operation_result : FileOperationResult → Observation
