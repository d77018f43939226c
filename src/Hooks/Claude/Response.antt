-- ===== src/Hooks/Claude/Response.antt =====
-- Responses to Claude Code: crates/hooks/claude/src/response.rs.
pub mod Withheld
use sondera_coding_agent_hoo.Prelude.{
  Bool, true, false, ◌||◌, Option, none, some, List, [], ◌∷◌, if◌then◌else◌,
}
use sondera_coding_agent_hoo.Prelude.Text.{Text, codes, contains_text, is_empty}
use sondera_coding_agent_hoo.Prelude.Int.{pos}
use sondera_coding_agent_hoo.Types.Json.{
  Json, Elements, Members, HashMap, null, bool, integer, decimal, string, array, object, none_left,
  element, closed, member, is_null,
}

pub data PermissionDecision : Type 0 where
  allow deny ask : PermissionDecision

pub data PermissionRequestBehavior : Type 0 where
  allow deny : PermissionRequestBehavior

pub record PermissionRequestDecision : Type 0 where
  pub behavior : PermissionRequestBehavior
  pub updated_input : Option Json
  pub message : Option Text
  pub interrupt : Option Bool

pub data BlockDecision : Type 0 where
  block : BlockDecision

pub record PreToolUseOutput : Type 0 where
  pub hook_event_name : Text
  pub permission_decision : Option PermissionDecision
  pub permission_decision_reason : Option Text
  pub updated_input : Option Json
  pub additional_context : Option Text

pub record PermissionRequestOutput : Type 0 where
  pub hook_event_name : Text
  pub decision : PermissionRequestDecision

pub record PostToolUseOutput : Type 0 where
  pub hook_event_name : Text
  pub additional_context : Option Text
  pub updated_tool_output : Option Json

-- The output of `PostToolUseFailure`, `UserPromptSubmit` and `SubagentStart`.
pub record ContextOutput : Type 0 where
  pub hook_event_name : Text
  pub additional_context : Option Text

pub record SessionStartOutput : Type 0 where
  pub hook_event_name : Text
  pub additional_context : Option Text
  pub env : Option (HashMap Text)

pub data HookSpecificOutput : Type 0 where
  pre_tool_use : PreToolUseOutput → HookSpecificOutput
  permission_request : PermissionRequestOutput → HookSpecificOutput
  post_tool_use : PostToolUseOutput → HookSpecificOutput
  post_tool_use_failure user_prompt_submit subagent_start : ContextOutput → HookSpecificOutput
  session_start : SessionStartOutput → HookSpecificOutput

pub record HookResponse : Type 0 where
  pub continue_execution : Bool
  pub stop_reason : Option Text
  pub suppress_output : Bool
  pub system_message : Option Text
  pub decision : Option BlockDecision
  pub reason : Option Text
  pub hook_specific_output : Option HookSpecificOutput

abbrev placeholder : Text
placeholder = codes "Output withheld by Sondera policy. See hook block reason."

-- The tags that redaction keeps.
abbrev preserved_keys : List Text
preserved_keys = codes "type" ∷ codes "media_type" ∷ []

unfoldable mutual
  pub redact_tool_output : Json → Json
  redact_tool_output null = null
  redact_tool_output (bool b) = bool false
  redact_tool_output (integer n) = integer (pos 0)
  redact_tool_output (decimal t) = decimal (codes "0.0")
  redact_tool_output (string s) = string placeholder
  redact_tool_output (array es) = array (redact_elements es)
  redact_tool_output (object ms) = object (redact_members ms)

  pub redact_elements : Elements → Elements
  redact_elements none_left = none_left
  redact_elements (element v es) = element (redact_tool_output v) (redact_elements es)

  pub redact_members : Members → Members
  redact_members closed = closed
  redact_members (member k v ms) = member k (redact_member k v) (redact_members ms)

  -- The value of a member: a string under a preserved key stays.
  pub redact_member : Text → Json → Json
  redact_member k (string s) =
      if contains_text preserved_keys k then string s else string placeholder
  redact_member k null = null
  redact_member k (bool b) = bool false
  redact_member k (integer n) = integer (pos 0)
  redact_member k (decimal t) = decimal (codes "0.0")
  redact_member k (array es) = array (redact_elements es)
  redact_member k (object ms) = object (redact_members ms)

-- `HookResponse::default()` and `allow`.
unfoldable pub allow_response : HookResponse
allow_response = record {
  continue_execution = true;
  stop_reason = none;
  suppress_output = false;
  system_message = none;
  decision = none;
  reason = none;
  hook_specific_output = none;
}

unfoldable pub stop : Text → HookResponse
unfolding allow_response
stop r = record allow_response { continue_execution = false; stop_reason = some r }

-- `block`, and `stop_block` and `subagent_stop_block`, which build the same.
unfoldable pub block_response : Text → HookResponse
unfolding allow_response
block_response r = record allow_response { decision = some block; reason = some r }

unfoldable pub pre_tool_answer : PermissionDecision → Text → HookResponse
unfolding allow_response
pre_tool_answer d r = record allow_response {
  hook_specific_output = some (
      pre_tool_use (record {
        hook_event_name = codes "PreToolUse";
        permission_decision = some d;
        permission_decision_reason = some r;
        updated_input = none;
        additional_context = none;
      }));
}

unfoldable pub pre_tool_deny : Text → HookResponse
unfolding pre_tool_answer
pre_tool_deny r = pre_tool_answer PermissionDecision.deny r

unfoldable pub pre_tool_ask : Text → HookResponse
unfolding pre_tool_answer
pre_tool_ask r = pre_tool_answer PermissionDecision.ask r

unfoldable pub permission_answer : Option Bool → Text → HookResponse
unfolding allow_response
permission_answer interrupt m = record allow_response {
  hook_specific_output = some (
      permission_request (record {
        hook_event_name = codes "PermissionRequest";
        decision = record {
          behavior = PermissionRequestBehavior.deny;
          updated_input = none;
          message = some m;
          interrupt = interrupt;
        };
      }));
}

unfoldable pub permission_deny : Text → HookResponse
unfolding permission_answer
permission_deny m = permission_answer none m

unfoldable pub permission_deny_and_interrupt : Text → HookResponse
unfolding permission_answer
permission_deny_and_interrupt m = permission_answer (some true) m

unfoldable pub post_tool_block_with_output : Text → Option Json → HookResponse
unfolding allow_response
post_tool_block_with_output r output = record allow_response {
  decision = some block;
  reason = some r;
  hook_specific_output = some (
      post_tool_use (record {
        hook_event_name = codes "PostToolUse";
        additional_context = none;
        updated_tool_output = output;
      }));
}

unfoldable pub post_tool_block : Text → HookResponse
unfolding post_tool_block_with_output
post_tool_block r = post_tool_block_with_output r none

unfoldable pub post_tool_block_with_redacted_output : Text → Json → HookResponse
unfolding post_tool_block_with_output redact_tool_output
post_tool_block_with_redacted_output r original =
    post_tool_block_with_output r
      (if is_null original then none else some (redact_tool_output original))

unfoldable pub post_tool_with_context : Text → HookResponse
unfolding allow_response
post_tool_with_context c = record allow_response {
  hook_specific_output = some (
      post_tool_use (record {
        hook_event_name = codes "PostToolUse";
        additional_context = some c;
        updated_tool_output = none;
      }));
}

unfoldable pub prompt_block : Text → HookResponse
unfolding allow_response
prompt_block r = record allow_response {
  decision = some block;
  reason = some r;
  hook_specific_output = some (
      user_prompt_submit
        (record { hook_event_name = codes "UserPromptSubmit"; additional_context = none }));
}

unfoldable pub prompt_with_context : Text → HookResponse
unfolding allow_response
prompt_with_context c = record allow_response {
  hook_specific_output = some (
      user_prompt_submit
        (record { hook_event_name = codes "UserPromptSubmit"; additional_context = some c }));
}

unfoldable pub session_start_with_context : Text → HookResponse
unfolding allow_response
session_start_with_context c = record allow_response {
  hook_specific_output = some (
      session_start (record {
        hook_event_name = codes "SessionStart";
        additional_context = if is_empty c then none else some c;
        env = none;
      }));
}

unfoldable pub session_start_with_env : HashMap Text → HookResponse
unfolding allow_response
session_start_with_env env = record allow_response {
  hook_specific_output = some (
      session_start (record {
        hook_event_name = codes "SessionStart";
        additional_context = none;
        env = some env;
      }));
}

unfoldable pub subagent_start_with_context : Text → HookResponse
unfolding allow_response
subagent_start_with_context c = record allow_response {
  hook_specific_output = some (
      subagent_start
        (record { hook_event_name = codes "SubagentStart"; additional_context = some c }));
}

unfoldable pub post_tool_failure_with_context : Text → HookResponse
unfolding allow_response
post_tool_failure_with_context c = record allow_response {
  hook_specific_output = some (
      post_tool_use_failure
        (record { hook_event_name = codes "PostToolUseFailure"; additional_context = some c }));
}

unfoldable pub with_suppress_output : HookResponse → HookResponse
with_suppress_output r = record r { suppress_output = true }

unfoldable pub with_system_message : Text → HookResponse → HookResponse
with_system_message m r = record r { system_message = some m }
