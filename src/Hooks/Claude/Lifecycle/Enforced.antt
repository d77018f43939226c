-- ===== src/Hooks/Claude/Lifecycle/Enforced.antt =====
-- What each hook of a session's life has adjudicated, and whether it blocks
-- (crates/hooks/claude/src/hooks.rs).
use sondera_coding_agent_hoo.Prelude.{
  ℕ, Bool, true, false, not, none, some, [], ◌∷◌, ◌++◌, ◌≡◌, ◌≢◌,
}
use sondera_coding_agent_hoo.Prelude.Text.{Text, codes}
use sondera_coding_agent_hoo.Types.Json.{null}
use sondera_coding_agent_hoo.Types.Observation.{PromptRole, prompt_shown, tool_output}
use sondera_coding_agent_hoo.Types.Policy.{Decision}
use sondera_coding_agent_hoo.Types.Control.{Control, Adjudicated}
use sondera_coding_agent_hoo.Types.Event.{
  Event, Fresh, TrajectoryEvent, ActorType, new_event, with_actor,
}
use sondera_coding_agent_hoo.Hooks.Runner.{ok}
use sondera_coding_agent_hoo.Hooks.Claude.Truncate.{
  max_event_text_bytes, cap_observation_strings, consume_string_budget,
}
use sondera_coding_agent_hoo.Hooks.Claude.Response.{HookResponse}
use sondera_coding_agent_hoo.Hooks.Claude.FailClosed.Laws.{blocks}
use sondera_coding_agent_hoo.Hooks.Claude.Handlers.{judged, Hooks, Handled}
use sondera_coding_agent_hoo.Hooks.Claude.Lifecycle.{
  NotificationType, ConfigChangeType, CompactTrigger, SubagentStopEvent, ToolFailureEvent,
  policy_settings, clear, logout, prompt_input_exit, bypass_permissions_disabled, other,
  config_name, notification_name, trigger_name, handle_session_start, handle_session_end,
  handle_notification, handle_subagent_start, handle_subagent_stop, handle_teammate_idle,
  handle_task_completed, handle_post_tool_use_failure, handle_config_change, handle_pre_compact,
}

abbrev pub is_allow : Decision → Bool
is_allow Decision.allow = true
is_allow _ = false

-- Exactly this event is adjudicated, and the response blocks exactly where the verdict on it is not
-- Allow.
abbrev pub Obeys : {S : Type 0} → Hooks S → S → Event → Handled S → Type 0
Obeys h s e out =
    (out.1 ≡ (h.adjudicate e s).1)
    × ((r : HookResponse)
        → out.0 ≡ ok r
        → (a : Adjudicated) × (((h.adjudicate e s).0 ≡ judged a)
            × (blocks r ≡ not (is_allow a.decision))))

-- The response does not block.
abbrev pub LetsPass : {S : Type 0} → Handled S → Type 0
LetsPass out = (r : HookResponse) → out.0 ≡ ok r → blocks r ≡ false

-- Exactly this event is adjudicated, and the response does not block.
abbrev pub Reports : {S : Type 0} → Hooks S → S → Event → Handled S → Type 0
Reports h s e out = (out.1 ≡ (h.adjudicate e s).1) × LetsPass out

-- Nothing is adjudicated, and the response does not block.
abbrev pub StaysSilent : {S : Type 0} → S → Handled S → Type 0
StaysSilent s out = (out.1 ≡ s) × LetsPass out

-- A control event of the session by the agent, and a prompt in the name of the platform.
abbrev pub event_of : {S : Type 0} → Hooks S → Fresh → Text → Control → Event
event_of h fresh session c = new_event fresh h.agent session (TrajectoryEvent.control c)

abbrev pub prompt_of : {S : Type 0} → Hooks S → Fresh → Text → Text → Event
prompt_of h fresh session text =
    with_actor (record { id = h.platform; actor_type = ActorType.system })
      (new_event fresh h.agent session (
        TrajectoryEvent.observation
          (cap_observation_strings h.serialize
            (prompt_shown (record { content = text; role = PromptRole.system }))
            max_event_text_bytes).0))

abbrev pub ended_by : Text → Text → Control
ended_by reason who = Control.terminated (record { reason = reason; terminated_by = who })

pub record Enforces {S : Type 0} (h : Hooks S) (fresh : Fresh) (s : S) : Type 0 where
  pub starts :
      (session : Text)
      → Obeys h s
          (event_of h fresh session (Control.started (record { agent = h.agent; task = none })))
          (handle_session_start h fresh session s)
  pub stops :
      (e : SubagentStopEvent)
      → e.stop_hook_active ≡ false
      → Obeys h s
          (event_of h fresh e.session_id (Control.completed none))
          (handle_subagent_stop h fresh e s)
  pub idles :
      (session : Text)
      → Obeys h s
          (event_of h fresh session (Control.suspended (codes "teammate idle")))
          (handle_teammate_idle h fresh session s)
  pub completes :
      (session subject : Text)
      → Obeys h s
          (event_of h fresh session
            (Control.completed (some (consume_string_budget subject max_event_text_bytes).value)))
          (handle_task_completed h fresh session subject s)
  pub compacts :
      (session : Text) (t : CompactTrigger)
      → Obeys h s
          (prompt_of h fresh session
            (codes "Compaction requested (" ++ trigger_name t ++ codes ")"))
          (handle_pre_compact h fresh session t [] s)
  pub compacts_as_told :
      (session : Text) (t : CompactTrigger) (c : ℕ) (cs : Text)
      → Obeys h s
          (prompt_of h fresh session (
            codes "Compaction requested ("
            ++ trigger_name t
            ++ codes ")"
            ++ codes " with instructions: "
            ++ c ∷ cs))
          (handle_pre_compact h fresh session t (c ∷ cs) s)
  pub configures :
      (session : Text) (t : ConfigChangeType)
      → t ≢ policy_settings
      → Obeys h s
          (prompt_of h fresh session
            (codes "Configuration changed (" ++ config_name t ++ codes ")"))
          (handle_config_change h fresh session t s)
  pub settings :
      (session : Text)
      → Reports h s
          (prompt_of h fresh session
            (codes "Configuration changed (" ++ config_name policy_settings ++ codes ")"))
          (handle_config_change h fresh session policy_settings s)
  pub stops_again :
      (e : SubagentStopEvent)
      → e.stop_hook_active ≡ true
      → StaysSilent s (handle_subagent_stop h fresh e s)
  pub clears :
      (session : Text)
      → Reports h s
          (event_of h fresh session (ended_by (codes "session cleared") (codes "user")))
          (handle_session_end h fresh session clear s)
  pub logs_out :
      (session : Text)
      → Reports h s
          (event_of h fresh session (ended_by (codes "user logged out") (codes "user")))
          (handle_session_end h fresh session logout s)
  pub disables :
      (session : Text)
      → Reports h s
          (event_of h fresh session
            (ended_by (codes "bypass permissions disabled") (codes "system")))
          (handle_session_end h fresh session bypass_permissions_disabled s)
  pub exits :
      (session : Text) → StaysSilent s (handle_session_end h fresh session prompt_input_exit s)
  pub ends_otherwise : (session : Text) → StaysSilent s (handle_session_end h fresh session other s)
  pub notifies :
      (session : Text) (t : NotificationType) (message : Text)
      → Reports h s
          (prompt_of h fresh session
            (codes "[notification:" ++ notification_name t ++ codes "] " ++ message))
          (handle_notification h fresh session t message s)
  pub spawns :
      (session : Text)
      → Reports h s
          (event_of h fresh session (Control.started (record { agent = h.agent; task = none })))
          (handle_subagent_start h fresh session s)
  pub fails :
      (e : ToolFailureEvent)
      → Reports h s
          (new_event fresh h.agent e.session_id (
            TrajectoryEvent.observation
              (cap_observation_strings h.serialize
                (tool_output (record {
                  call_id = e.tool_use_id;
                  success = false;
                  output = null;
                  error = some e.error;
                }))
                max_event_text_bytes).0))
          (handle_post_tool_use_failure h fresh e s)
