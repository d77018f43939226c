-- ===== src/Hooks/Claude/FailClosed.antt =====
-- What Claude Code is told when enforcement fails: `fail_closed_response` of
-- crates/hooks/claude/src/response.rs.
pub mod Laws
use sondera_coding_agent_hoo.Prelude.{
  Bool, true, false, ◌&&◌, ◌||◌, Option, none, some, List, [], ◌∷◌, if◌then◌else◌,
}
use sondera_coding_agent_hoo.Prelude.Text.{Text, codes, text_eq, contains_text}
use sondera_coding_agent_hoo.Types.Json.{Json, as_str, get_key, is_null}
use sondera_coding_agent_hoo.Hooks.Error.{HookError, budget_exceeded, fail_closed_reason}
use sondera_coding_agent_hoo.Hooks.Claude.Response.{
  HookResponse, allow_response, with_system_message, block_response, pre_tool_deny,
  permission_deny_and_interrupt, post_tool_block, post_tool_block_with_redacted_output, stop,
  prompt_block,
}

lifecycle_degrades_open : Text → Bool
lifecycle_degrades_open name =
    contains_text (codes "SubagentStop" ∷ codes "TaskCompleted" ∷ codes "TeammateIdle" ∷ []) name

first_of : Option Json → Option Json → Option Json
first_of none b = b
first_of (some a) b = some a

string_is : Text → Option Json → Bool
string_is s none = false
string_is s (some v) = elim (as_str v) [ none ↦ false | some t ↦ text_eq t s ]

unfoldable pub is_policy_settings : Option Json → Bool
unfolding first_of string_is
is_policy_settings none = false
is_policy_settings (some input) =
    string_is (codes "policy_settings")
      (first_of (get_key input (codes "source")) (get_key input (codes "config_type")))

unfoldable pub is_budget_exceeded : HookError → Bool
is_budget_exceeded (budget_exceeded n) = true
is_budget_exceeded _ = false

blocked_output : Text → Option Json → HookResponse
unfolding post_tool_block post_tool_block_with_redacted_output
blocked_output reason none = post_tool_block reason
blocked_output reason (some response) =
    if is_null response
    then post_tool_block reason
    else post_tool_block_with_redacted_output reason response

tool_response : Option Json → Option Json
tool_response none = none
tool_response (some input) = get_key input (codes "tool_response")

-- The arms of the `match` on the name of the hook.
by_name : Text → Text → Option Json → Option HookResponse
unfolding is_policy_settings block_response pre_tool_deny permission_deny_and_interrupt
    blocked_output tool_response stop prompt_block
by_name name reason input =
    if text_eq name (codes "ConfigChange")
    then (if is_policy_settings input then none else some (block_response reason))
    else if text_eq name (codes "PreToolUse")
    then some (pre_tool_deny reason)
    else if text_eq name (codes "PermissionRequest")
    then some (permission_deny_and_interrupt reason)
    else if text_eq name (codes "PostToolUse")
    then some (blocked_output reason (tool_response input))
    else if text_eq name (codes "PreCompact")
    then some (block_response reason)
    else if text_eq name (codes "SubagentStop")
    then some (block_response reason)
    else if contains_text (codes "TaskCompleted" ∷ codes "TeammateIdle" ∷ []) name
    then some (stop reason)
    else if text_eq name (codes "UserPromptSubmit")
    then some (prompt_block reason)
    else none

unfoldable pub fail_closed_response : Text → Option Json → HookError → Option HookResponse
unfolding lifecycle_degrades_open is_budget_exceeded by_name fail_closed_reason with_system_message
    allow_response
fail_closed_response name input error =
    if is_budget_exceeded error && lifecycle_degrades_open name
    then some (with_system_message (fail_closed_reason error) allow_response)
    else by_name name (fail_closed_reason error) input
