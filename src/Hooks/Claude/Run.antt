-- ===== src/Hooks/Claude/Run.antt =====
-- A hook command from its event to its response: `run` and `degraded_hook_response` of
-- crates/hooks/claude/src/lib.rs. The JSON decoders of the events, and the handlers of the hooks
-- that are about no tool call, are parameters; log lines, stdin and stdout are left out.
pub mod Sent
pub mod Gate
pub mod Enforced
use sondera_coding_agent_hoo.Prelude.{ℕ, ◌+◌, ◌*◌, Option, none, some, ◌≡◌}
use sondera_coding_agent_hoo.Prelude.Text.{Text, codes}
use sondera_coding_agent_hoo.Types.Json.{Json}
use sondera_coding_agent_hoo.Types.Event.{Fresh}
use sondera_coding_agent_hoo.Hooks.Error.{
  HarnessClientError, HookError, budget_exceeded, panicked, from_client, fallback_context,
}
use sondera_coding_agent_hoo.Hooks.Runner.{
  Settled, returned, unwound, Timed, Result, ok, err, timeout_at, read_event, both_take,
}
use sondera_coding_agent_hoo.Hooks.Claude.Response.{
  HookResponse, allow_response, session_start_with_context,
}
use sondera_coding_agent_hoo.Hooks.Claude.FailClosed.{fail_closed_response}
use sondera_coding_agent_hoo.Hooks.Claude.Handlers.{
  ToolUseEvent, PostToolUseEvent, Hooks, Handled, handle_pre_tool_use, handle_permission_request,
  handle_post_tool_use,
}

-- The commands that answer a hook; `Install` and `Uninstall` answer none.
pub data Command : Type 0 where
  pre_tool_use permission_request post_tool_use post_tool_use_failure notification : Command
  user_prompt_submit stop subagent_start subagent_stop teammate_idle task_completed : Command
  config_change instructions_loaded worktree_remove pre_compact : Command
  session_start session_end : Command

unfoldable pub hook_event_name : Command → Text
hook_event_name pre_tool_use = codes "PreToolUse"
hook_event_name permission_request = codes "PermissionRequest"
hook_event_name post_tool_use = codes "PostToolUse"
hook_event_name post_tool_use_failure = codes "PostToolUseFailure"
hook_event_name notification = codes "Notification"
hook_event_name user_prompt_submit = codes "UserPromptSubmit"
hook_event_name stop = codes "Stop"
hook_event_name subagent_start = codes "SubagentStart"
hook_event_name subagent_stop = codes "SubagentStop"
hook_event_name teammate_idle = codes "TeammateIdle"
hook_event_name task_completed = codes "TaskCompleted"
hook_event_name config_change = codes "ConfigChange"
hook_event_name instructions_loaded = codes "InstructionsLoaded"
hook_event_name worktree_remove = codes "WorktreeRemove"
hook_event_name pre_compact = codes "PreCompact"
hook_event_name session_start = codes "SessionStart"
hook_event_name session_end = codes "SessionEnd"

unfoldable pub or_fallback : Command → HookError → Option HookResponse → HookResponse
unfolding allow_response session_start_with_context fallback_context
or_fallback c e (some r) = r
or_fallback session_start e none = session_start_with_context (fallback_context e)
or_fallback c e none = allow_response

-- `degraded_hook_response`.
unfoldable pub degraded_hook_response : Command → HookError → Option Json → HookResponse
unfolding or_fallback hook_event_name fail_closed_response
degraded_hook_response c e input =
    or_fallback c e (fail_closed_response (hook_event_name c) input e)

-- `serde_json::from_value` at the event types of the tool calls.
pub record Decoders : Type 0 where
  pub pre_tool_use : Json → Result ToolUseEvent
  pub permission_request : Json → Result ToolUseEvent
  pub post_tool_use : Json → Result PostToolUseEvent

-- What `connect_harness_for_hook` comes to.
pub data Connected (S : Type 0) : Type 0 where
  reached : Hooks S → Connected S
  unreached : HarnessClientError → Connected S

unfoldable pub decoded : {A S : Type 0} → Result A → (A → S → Handled S) → S → Handled S
decoded (ok e) handle s = handle e s
decoded (err x) handle s = (err x, s)

unfoldable pub settled : Settled (Unit {0}) → Result HookResponse → Settled (Result HookResponse)
settled (returned u) r = returned r
settled unwound r = unwound

-- The `match` on the outcome of the handler.
unfoldable pub outcome_response :
    Command → ℕ → Json → Option (Settled (Result HookResponse)) → HookResponse
unfolding degraded_hook_response
outcome_response c budget raw none = degraded_hook_response c (budget_exceeded budget) (some raw)
outcome_response c budget raw (some unwound) = degraded_hook_response c panicked (some raw)
outcome_response c budget raw (some (returned (err e))) = degraded_hook_response c e (some raw)
outcome_response c budget raw (some (returned (ok response))) = response

module _ {S : Type 0} (decode : Decoders) (others : Command → Hooks S → Json → S → Handled S)
    (fresh : Fresh) where
  unfoldable pub dispatch_hook : Command → Hooks S → Json → S → Handled S
  unfolding decoded handle_pre_tool_use handle_permission_request handle_post_tool_use
  dispatch_hook pre_tool_use h raw s =
      decoded (decode.pre_tool_use raw) (handle_pre_tool_use h fresh) s
  dispatch_hook permission_request h raw s =
      decoded (decode.permission_request raw) (handle_permission_request h fresh) s
  dispatch_hook post_tool_use h raw s =
      decoded (decode.post_tool_use raw) (handle_post_tool_use h fresh) s
  dispatch_hook c h raw s = others c h raw s

  unfoldable pub served : Command → Json → S → Connected S → Result HookResponse
  unfolding dispatch_hook degraded_hook_response
  served c raw s (reached h) = (dispatch_hook c h raw s).0
  served c raw s (unreached e) = ok (degraded_hook_response c (from_client e) (some raw))

  -- The future of the handler: when it ends, and whether it panics, depends on the harness.
  unfoldable pub handled_within :
      Command
      → Json
      → S
      → Option ℕ
      → Settled (Connected S)
      → (Connected S → Timed (Unit {0}))
      → Timed (Result HookResponse)
  unfolding settled served both_take
  handled_within c raw s takes unwound works = record { takes = takes; comes_to = unwound }
  handled_within c raw s takes (returned x) works = record {
    takes = both_take takes (works x).takes;
    comes_to = settled (works x).comes_to (served c raw s x);
  }

  unfoldable pub respond_after_read :
      Command
      → ℕ
      → ℕ
      → Timed (Connected S)
      → (Connected S → Timed (Unit {0}))
      → S
      → Result Json
      → ℕ
      → HookResponse
  unfolding degraded_hook_response outcome_response timeout_at handled_within
  respond_after_read c budget deadline connect works s (err e) now = degraded_hook_response c e none
  respond_after_read c budget deadline connect works s (ok raw) now =
      outcome_response c budget raw
        (timeout_at deadline now (handled_within c raw s connect.takes connect.comes_to works)).0

  -- The response of a command that starts at `now`.
  unfoldable pub run_hook :
      Command
      → ℕ
      → ℕ
      → Timed (Result Json)
      → Timed (Connected S)
      → (Connected S → Timed (Unit {0}))
      → S
      → HookResponse
  unfolding respond_after_read timeout_at read_event
  run_hook c budget now reader connect works s =
      let deadline = now + budget * 1000 in
      let o = timeout_at deadline now reader in
      respond_after_read c budget deadline connect works s (read_event budget o.0) o.1
