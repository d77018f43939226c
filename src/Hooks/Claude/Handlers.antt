-- ===== src/Hooks/Claude/Handlers.antt =====
-- The handlers of tool calls: `handle_pre_tool_use`, `handle_permission_request` and
-- `handle_post_tool_use` of crates/hooks/claude/src/hooks.rs. The harness client is a parameter
-- that keeps its own state; log lines are left out.
pub mod Guards
use sondera_coding_agent_hoo.Prelude.{
  ℕ, ◌-◌, ◌%◌, ◌^◌, Bool, true, false, Option, none, some, List, [], ◌∷◌, ◌++◌, if◌then◌else◌, ltb,
}
use sondera_coding_agent_hoo.Prelude.Text.{Text, codes, text_eq, contains_text}
use sondera_coding_agent_hoo.Prelude.Int.{ℤ, pos, negsuc}
use sondera_coding_agent_hoo.Types.Json.{Json, bool, integer, as_str, get_key}
use sondera_coding_agent_hoo.Types.Action.{Action, tool_call}
use sondera_coding_agent_hoo.Types.Observation.{
  Observation, shell_command_output, web_fetch_output, file_operation_result, tool_output,
}
use sondera_coding_agent_hoo.Types.Policy.{Decision}
use sondera_coding_agent_hoo.Types.Control.{Adjudicated}
use sondera_coding_agent_hoo.Types.Message.{deny_message}
use sondera_coding_agent_hoo.Types.Agent.{Agent}
use sondera_coding_agent_hoo.Types.Event.{Event, Fresh, TrajectoryEvent, new_event}
use sondera_coding_agent_hoo.Types.Summary.{as_i32}
use sondera_coding_agent_hoo.Hooks.Error.{
  HarnessClientError, HookError, from_client, fail_closed_reason_post_tool,
}
use sondera_coding_agent_hoo.Hooks.Runner.{Result, ok, err}
use sondera_coding_agent_hoo.Hooks.Tool.{string_arg}
use sondera_coding_agent_hoo.Hooks.Claude.Action.{normalize_pre_tool_action}
use sondera_coding_agent_hoo.Hooks.Claude.Truncate.{
  max_event_text_bytes, cap_action_strings, cap_observation_strings,
}
use sondera_coding_agent_hoo.Hooks.Claude.Response.{
  HookResponse, allow_response, pre_tool_deny, pre_tool_ask, permission_deny,
  post_tool_block_with_redacted_output,
}

-- The fields of `PreToolUseEvent` and `PermissionRequestEvent` that the handlers read.
pub record ToolUseEvent : Type 0 where
  pub session_id : Text
  pub cwd : Text
  pub tool_name : Text
  pub tool_input : Json
  pub tool_use_id : Text

pub record PostToolUseEvent : Type 0 where
  pub session_id : Text
  pub tool_name : Text
  pub tool_input : Json
  pub tool_response : Json
  pub tool_use_id : Text

-- What the client answers to one `adjudicate`.
pub data Reply : Type 0 where
  judged : Adjudicated → Reply
  failed : HarnessClientError → Reply

-- A handler has its answer and what the client keeps.
abbrev pub Handled : Type 0 → Type 0
Handled S = Result HookResponse × S

-- `adjudicate(ev).await?`, then the match on the decision.
unfoldable pub on_reply : {S : Type 0} → (Adjudicated → HookResponse) → Reply × S → Handled S
on_reply respond (judged a, s) = (ok (respond a), s)
on_reply respond (failed e, s) = (err (from_client e), s)

unfoldable pub pre_tool_response : Text → Adjudicated → HookResponse
unfolding pre_tool_deny pre_tool_ask allow_response deny_message
pre_tool_response tool a = elim a.decision [
  | Decision.allow ↦ allow_response
  | Decision.deny ↦
      pre_tool_deny
        (deny_message (codes "Tool '" ++ tool ++ codes "' execution denied by policy") a)
  | Decision.escalate ↦
      pre_tool_ask
        (deny_message (codes "Tool '" ++ tool ++ codes "' execution requires approval") a)
]

unfoldable pub permission_response : Text → Adjudicated → HookResponse
unfolding permission_deny allow_response deny_message
permission_response tool a = elim a.decision [
  | Decision.allow ↦ allow_response
  | _ ↦
      permission_deny
        (deny_message (codes "Permission for tool '" ++ tool ++ codes "' denied by policy") a)
]

unfoldable pub post_tool_response : Json → Adjudicated → HookResponse
unfolding post_tool_block_with_redacted_output allow_response deny_message
post_tool_response output a = elim a.decision [
  | Decision.allow ↦ allow_response
  | Decision.deny ↦
      post_tool_block_with_redacted_output (deny_message (codes "Tool output blocked by policy") a)
        output
  | Decision.escalate ↦
      post_tool_block_with_redacted_output (deny_message (codes "Tool output requires review") a)
        output
]

-- The match of `handle_post_tool_use`, whose failures block the output as well.
unfoldable pub on_post_reply : {S : Type 0} → Json → Reply × S → Handled S
unfolding post_tool_response post_tool_block_with_redacted_output fail_closed_reason_post_tool
on_post_reply output (judged a, s) = (ok (post_tool_response output a), s)
on_post_reply output (failed e, s) = (
  ok (post_tool_block_with_redacted_output (fail_closed_reason_post_tool (from_client e)) output),
  s,
)

text_or_empty : Option Text → Text
text_or_empty none = []
text_or_empty (some s) = s

str_at : Json → Text → Option Text
str_at v k = elim (get_key v k) [ none ↦ none | some w ↦ as_str w ]

-- `value.as_bool()` of a key, false where it is none.
flag_at : Option Json → Bool
flag_at (some (bool b)) = b
flag_at _ = false

-- `value.as_i64()` of a key, 0 where it is none, as an `i32`.
unfoldable pub code_at : Option Json → ℤ
unfolding as_i32
code_at (some (integer (pos n))) = if ltb n (2 ^ 63) then as_i32 n else pos 0
code_at (some (integer (negsuc n))) = as_i32 (2 ^ 32 - 1 - n % 2 ^ 32)
code_at _ = pos 0

file_content : Option Json → Option Text
unfolding str_at
file_content none = none
file_content (some f) = str_at f (codes "content")

-- What the tool's response says was seen.
unfoldable pub post_tool_observation : PostToolUseEvent → Observation
unfolding text_or_empty str_at flag_at code_at file_content string_arg
post_tool_observation e =
    if contains_text (codes "Bash" ∷ codes "Shell" ∷ []) e.tool_name
    then shell_command_output (record {
      call_id = e.tool_use_id;
      exit_code =
          if flag_at (get_key e.tool_response (codes "interrupted")) then negsuc 0 else pos 0;
      stdout = text_or_empty (str_at e.tool_response (codes "stdout"));
      stderr = text_or_empty (str_at e.tool_response (codes "stderr"));
    })
    else if text_eq e.tool_name (codes "WebFetch")
    then web_fetch_output (record {
      call_id = e.tool_use_id;
      url = text_or_empty (str_at e.tool_response (codes "url"));
      code = code_at (get_key e.tool_response (codes "code"));
      result = text_or_empty (str_at e.tool_response (codes "result"));
    })
    else if contains_text (codes "Read" ∷ codes "Edit" ∷ codes "Write" ∷ []) e.tool_name
    then file_operation_result (record {
      call_id = e.tool_use_id;
      success = true;
      path = string_arg e.tool_input (codes "file_path" ∷ codes "path" ∷ []);
      content = file_content (get_key e.tool_response (codes "file"));
      error = none;
    })
    else tool_output
        (record { call_id = e.tool_use_id; success = true; output = e.tool_response; error = none })

-- The hooks of an agent, over a client with a state.
pub record Hooks (S : Type 0) : Type 0 where
  pub agent : Agent
  pub platform : Text
  pub adjudicate : Event → S → Reply × S
  pub is_plan_file : Text → Bool
  pub serialize : Json → Text

module _ {S : Type 0} (h : Hooks S) where
  -- The event that each handler sends.
  unfoldable pub pre_tool_event : Fresh → ToolUseEvent → Event
  unfolding normalize_pre_tool_action cap_action_strings
  pre_tool_event fresh e = new_event fresh h.agent e.session_id (
      TrajectoryEvent.action
        (cap_action_strings h.serialize
          (normalize_pre_tool_action h.is_plan_file e.tool_name e.tool_use_id e.cwd e.tool_input)
          max_event_text_bytes).0)

  unfoldable pub permission_event : Fresh → ToolUseEvent → Event
  unfolding cap_action_strings
  permission_event fresh e = new_event fresh h.agent e.session_id (
      TrajectoryEvent.action
        (cap_action_strings h.serialize
          (tool_call (record {
            call_id = e.tool_use_id;
            tool = e.tool_name ++ codes "_permission";
            arguments = e.tool_input;
          }))
          max_event_text_bytes).0)

  unfoldable pub post_tool_event : Fresh → PostToolUseEvent → Event
  unfolding post_tool_observation cap_observation_strings
  post_tool_event fresh e = new_event fresh h.agent e.session_id (
      TrajectoryEvent.observation
        (cap_observation_strings h.serialize (post_tool_observation e) max_event_text_bytes).0)

  unfoldable pub handle_pre_tool_use : Fresh → ToolUseEvent → S → Handled S
  unfolding pre_tool_event on_reply pre_tool_response
  handle_pre_tool_use fresh e s =
      on_reply (pre_tool_response e.tool_name) (h.adjudicate (pre_tool_event fresh e) s)

  unfoldable pub handle_permission_request : Fresh → ToolUseEvent → S → Handled S
  unfolding permission_event on_reply permission_response
  handle_permission_request fresh e s =
      on_reply (permission_response e.tool_name) (h.adjudicate (permission_event fresh e) s)

  unfoldable pub handle_post_tool_use : Fresh → PostToolUseEvent → S → Handled S
  unfolding post_tool_event on_post_reply
  handle_post_tool_use fresh e s =
      on_post_reply e.tool_response (h.adjudicate (post_tool_event fresh e) s)
