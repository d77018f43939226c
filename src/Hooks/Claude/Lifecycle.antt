-- ===== src/Hooks/Claude/Lifecycle.antt =====
-- The handlers of sessions, subagents, teams, notifications, failures, configuration changes and
-- compactions: crates/hooks/claude/src/hooks.rs. Log lines are left out.
pub mod Enforced
pub mod Laws
use sondera_coding_agent_hoo.Prelude.{
  Bool, true, false, Option, none, some, [], ◌++◌, if◌then◌else◌,
}
use sondera_coding_agent_hoo.Prelude.Text.{Text, codes, is_empty}
use sondera_coding_agent_hoo.Types.Json.{Json, null}
use sondera_coding_agent_hoo.Types.Observation.{Observation, PromptRole, prompt_shown, tool_output}
use sondera_coding_agent_hoo.Types.Policy.{Decision}
use sondera_coding_agent_hoo.Types.Control.{Control, Adjudicated}
use sondera_coding_agent_hoo.Types.Message.{deny_message}
use sondera_coding_agent_hoo.Types.Agent.{Agent}
use sondera_coding_agent_hoo.Types.Event.{
  Event, Fresh, TrajectoryEvent, ActorType, new_event, with_actor,
}
use sondera_coding_agent_hoo.Hooks.Runner.{ok}
use sondera_coding_agent_hoo.Hooks.Claude.Truncate.{
  max_event_text_bytes, cap_observation_strings, cap_control_strings,
}
use sondera_coding_agent_hoo.Hooks.Claude.Response.{
  HookResponse, allow_response, stop, block_response, with_system_message,
}
use sondera_coding_agent_hoo.Hooks.Claude.Handlers.{Hooks, Handled, on_reply}

-- What the handlers read of their events.
pub data SessionEndReason : Type 0 where
  clear logout prompt_input_exit bypass_permissions_disabled other : SessionEndReason

pub data NotificationType : Type 0 where
  permission_prompt idle_prompt auth_success elicitation_dialog : NotificationType
  elicitation_complete elicitation_response agent_needs_input agent_completed : NotificationType
  unknown : NotificationType

pub data ConfigChangeType : Type 0 where
  user_settings project_settings local_settings policy_settings : ConfigChangeType
  skills unknown : ConfigChangeType

pub data CompactTrigger : Type 0 where
  manual auto unknown : CompactTrigger

pub record SubagentStopEvent : Type 0 where
  pub session_id : Text
  pub stop_hook_active : Bool
  pub agent_id : Text
  pub agent_type : Text

pub record ToolFailureEvent : Type 0 where
  pub session_id : Text
  pub error : Text
  pub tool_use_id : Text

-- The names that `{:?}` prints.
pub notification_name : NotificationType → Text
notification_name permission_prompt = codes "PermissionPrompt"
notification_name idle_prompt = codes "IdlePrompt"
notification_name auth_success = codes "AuthSuccess"
notification_name elicitation_dialog = codes "ElicitationDialog"
notification_name elicitation_complete = codes "ElicitationComplete"
notification_name elicitation_response = codes "ElicitationResponse"
notification_name agent_needs_input = codes "AgentNeedsInput"
notification_name agent_completed = codes "AgentCompleted"
notification_name NotificationType.unknown = codes "Unknown"

pub config_name : ConfigChangeType → Text
config_name user_settings = codes "UserSettings"
config_name project_settings = codes "ProjectSettings"
config_name local_settings = codes "LocalSettings"
config_name policy_settings = codes "PolicySettings"
config_name skills = codes "Skills"
config_name ConfigChangeType.unknown = codes "Unknown"

unfoldable pub trigger_name : CompactTrigger → Text
trigger_name manual = codes "Manual"
trigger_name auto = codes "Auto"
trigger_name CompactTrigger.unknown = codes "Unknown"

-- `lifecycle_block_response`.
unfoldable pub lifecycle_block_response :
    Text → Text → (Text → HookResponse) → Adjudicated → Option HookResponse
unfolding deny_message
lifecycle_block_response deny_reason escalate_reason build a = elim a.decision [
  | Decision.allow ↦ none
  | Decision.deny ↦ some (build (deny_message deny_reason a))
  | Decision.escalate ↦ some (build (deny_message escalate_reason a))
]

unfoldable pub or_response : HookResponse → Option HookResponse → HookResponse
or_response r none = r
or_response r (some b) = b

-- Blocked by the verdict, or allowed.
unfoldable pub unless_blocked :
    Text → Text → (Text → HookResponse) → HookResponse → Adjudicated → HookResponse
unfolding lifecycle_block_response or_response
unless_blocked deny_reason escalate_reason build allowed a =
    or_response allowed (lifecycle_block_response deny_reason escalate_reason build a)

-- A verdict that the hook cannot enforce is only logged.
unfoldable pub allow_anyway : HookResponse → Adjudicated → HookResponse
allow_anyway r a = r

unfoldable pub terminal_control : SessionEndReason → Option Control
terminal_control clear =
    some (
      Control.terminated
        (record { reason = codes "session cleared"; terminated_by = codes "user" }))
terminal_control logout =
    some (
      Control.terminated
        (record { reason = codes "user logged out"; terminated_by = codes "user" }))
terminal_control bypass_permissions_disabled = some (
    Control.terminated
      (record { reason = codes "bypass permissions disabled"; terminated_by = codes "system" }))
terminal_control _ = none

config_response : ConfigChangeType → Text → Adjudicated → HookResponse
unfolding unless_blocked allow_anyway block_response allow_response with_system_message
config_response policy_settings context a =
    allow_anyway (with_system_message context allow_response) a
config_response _ context a =
    unless_blocked (codes "Configuration change blocked by policy")
      (codes "Configuration change escalated for review") block_response
      (with_system_message context allow_response) a

unfoldable pub config_context : ConfigChangeType → Text
unfolding config_name
config_context t = codes "Configuration changed (" ++ config_name t ++ codes ")"

unfoldable pub compact_context : CompactTrigger → Text → Text
unfolding trigger_name
compact_context trigger instructions =
    codes "Compaction requested ("
    ++ trigger_name trigger
    ++ codes ")"
    ++ (if is_empty instructions then [] else codes " with instructions: " ++ instructions)

module _ {S : Type 0} (h : Hooks S) where
  unfoldable pub control_event : Fresh → Text → Control → Event
  control_event fresh session c = new_event fresh h.agent session (TrajectoryEvent.control c)

  -- A system prompt with the capped text.
  unfoldable pub system_event : Fresh → Text → Text → Event
  unfolding cap_observation_strings
  system_event fresh session text =
      with_actor (record { id = h.platform; actor_type = ActorType.system })
        (new_event fresh h.agent session (
          TrajectoryEvent.observation
            (cap_observation_strings h.serialize
              (prompt_shown (record { content = text; role = PromptRole.system }))
              max_event_text_bytes).0))

  unfoldable pub handle_session_start : Fresh → Text → S → Handled S
  unfolding control_event on_reply unless_blocked stop allow_response
  handle_session_start fresh session s =
      on_reply
        (unless_blocked (codes "Session start blocked by policy")
          (codes "Session start escalated for review") stop allow_response)
        (h.adjudicate
          (control_event fresh session (Control.started (record { agent = h.agent; task = none })))
          s)

  unfoldable pub end_session : Fresh → Text → Option Control → S → Handled S
  unfolding control_event on_reply allow_anyway allow_response
  end_session fresh session none s = (ok allow_response, s)
  end_session fresh session (some c) s =
      on_reply (allow_anyway allow_response) (h.adjudicate (control_event fresh session c) s)

  unfoldable pub handle_session_end : Fresh → Text → SessionEndReason → S → Handled S
  unfolding end_session terminal_control
  handle_session_end fresh session reason s = end_session fresh session (terminal_control reason) s

  unfoldable pub handle_notification : Fresh → Text → NotificationType → Text → S → Handled S
  unfolding system_event on_reply allow_anyway allow_response notification_name
  handle_notification fresh session t message s = on_reply (allow_anyway allow_response) (
      h.adjudicate
        (system_event fresh session
          (codes "[notification:" ++ notification_name t ++ codes "] " ++ message))
        s)

  unfoldable pub handle_subagent_start : Fresh → Text → S → Handled S
  unfolding control_event on_reply allow_anyway allow_response
  handle_subagent_start fresh session s = on_reply (allow_anyway allow_response) (
      h.adjudicate
        (control_event fresh session (Control.started (record { agent = h.agent; task = none }))) s)

  unfoldable pub handle_subagent_stop : Fresh → SubagentStopEvent → S → Handled S
  unfolding control_event on_reply unless_blocked block_response allow_response
  handle_subagent_stop fresh e s =
      if e.stop_hook_active
      then (ok allow_response, s)
      else on_reply
          (unless_blocked (codes "Subagent stop blocked by policy")
            (codes "Subagent stop escalated for review") block_response allow_response)
          (h.adjudicate (control_event fresh e.session_id (Control.completed none)) s)

  unfoldable pub handle_teammate_idle : Fresh → Text → S → Handled S
  unfolding control_event on_reply unless_blocked stop allow_response
  handle_teammate_idle fresh session s =
      on_reply
        (unless_blocked (codes "Teammate idle blocked by policy")
          (codes "Teammate idle escalated for review") stop allow_response)
        (h.adjudicate (control_event fresh session (Control.suspended (codes "teammate idle"))) s)

  unfoldable pub handle_task_completed : Fresh → Text → Text → S → Handled S
  unfolding control_event on_reply unless_blocked stop allow_response cap_control_strings
  handle_task_completed fresh session subject s =
      on_reply
        (unless_blocked (codes "Task completion blocked by policy")
          (codes "Task completion escalated for review") stop allow_response)
        (h.adjudicate
          (control_event fresh session
            (cap_control_strings (Control.completed (some subject)) max_event_text_bytes).0)
          s)

  unfoldable pub handle_post_tool_use_failure : Fresh → ToolFailureEvent → S → Handled S
  unfolding on_reply allow_anyway allow_response cap_observation_strings
  handle_post_tool_use_failure fresh e s = on_reply (allow_anyway allow_response) (
      h.adjudicate
        (new_event fresh h.agent e.session_id (
          TrajectoryEvent.observation
            (cap_observation_strings h.serialize
              (tool_output (record {
                call_id = e.tool_use_id;
                success = false;
                output = null;
                error = some e.error;
              }))
              max_event_text_bytes).0))
        s)

  unfoldable pub handle_config_change : Fresh → Text → ConfigChangeType → S → Handled S
  unfolding system_event on_reply config_response config_context
  handle_config_change fresh session t s =
      on_reply (config_response t (config_context t))
        (h.adjudicate (system_event fresh session (config_context t)) s)

  unfoldable pub handle_pre_compact : Fresh → Text → CompactTrigger → Text → S → Handled S
  unfolding system_event on_reply unless_blocked block_response allow_response compact_context
  handle_pre_compact fresh session trigger instructions s =
      on_reply
        (unless_blocked (codes "Compaction blocked by policy")
          (codes "Compaction escalated for review") block_response allow_response)
        (h.adjudicate (system_event fresh session (compact_context trigger instructions)) s)
