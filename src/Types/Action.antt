-- ===== src/Types/Action.antt =====
-- What an agent does: crates/types/src/trajectory/action.rs.
use sondera_coding_agent_hoo.Prelude.{Option}
use sondera_coding_agent_hoo.Prelude.Text.{Text}
use sondera_coding_agent_hoo.Types.Json.{Json}

pub record ToolCall : Type 0 where
  pub call_id : Text
  pub tool : Text
  pub arguments : Json

pub record ShellCommand : Type 0 where
  pub call_id : Text
  pub command : Text
  pub working_dir : Option Text

pub record WebFetch : Type 0 where
  pub call_id : Text
  pub url : Text
  pub prompt : Text

pub data FileOpType : Type 0 where
  read write edit delete : FileOpType

pub record FileOperation : Type 0 where
  pub call_id : Text
  pub operation : FileOpType
  pub path : Text
  pub content : Option Text
  pub old_content : Option Text

pub data Action : Type 0 where
  tool_call : ToolCall → Action
  shell_command : ShellCommand → Action
  web_fetch : WebFetch → Action
  file_operation : FileOperation → Action
