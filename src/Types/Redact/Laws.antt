-- ===== src/Types/Redact/Laws.antt =====
-- What redaction removes and what it keeps (crates/types/src/trajectory/redact.rs).
use sondera_coding_agent_hoo.Prelude.{ℕ, Option, none, some, List, [], ◌∷◌, ◌++◌, map, ◌≡◌, refl}
use sondera_coding_agent_hoo.Prelude.Text.{Text}
use sondera_coding_agent_hoo.Types.Action.{tool_call, shell_command, web_fetch, file_operation}
use sondera_coding_agent_hoo.Types.Observation.{
  prompt_shown, thought_had, tool_output, shell_command_output, web_fetch_output,
  file_operation_result,
}
use sondera_coding_agent_hoo.Types.Event.{
  Event, TrajectoryEvent, action, observation, control, state,
}
use sondera_coding_agent_hoo.Types.Redact.{
  redaction_marker, redact, redact_payload, redact_file_content,
}

abbrev body : Option Text → List Text
body none = []
body (some t) = t ∷ []

-- The file bodies of a payload, and the payload without them.
abbrev pub bodies : TrajectoryEvent → List Text
bodies (action (file_operation op)) = body op.content ++ body op.old_content
bodies (observation (file_operation_result r)) = body r.content
bodies _ = []

abbrev pub without_bodies : TrajectoryEvent → TrajectoryEvent
without_bodies (action (file_operation op)) =
    action (file_operation (record op { content = none; old_content = none }))
without_bodies (observation (file_operation_result r)) =
    observation (file_operation_result (record r { content = none }))
without_bodies p = p

module _ (sha256 : List ℕ → Text) where
  body_of-redact :
      (t : Option Text) → body (redact sha256 t) ≡ map (redaction_marker sha256) (body t)
  unfolding redact
  body_of-redact none = refl
  body_of-redact (some t) = refl

  both_of-redact :
      (s t : Option Text)
      → body (redact sha256 s) ++ body (redact sha256 t)
        ≡ map (redaction_marker sha256) (body s ++ body t)
  unfolding redact
  both_of-redact none none = refl
  both_of-redact none (some t) = refl
  both_of-redact (some s) none = refl
  both_of-redact (some s) (some t) = refl

  bodies-redact :
      (p : TrajectoryEvent)
      → bodies (redact_payload sha256 p) ≡ map (redaction_marker sha256) (bodies p)
  unfolding redact_payload
  bodies-redact (action (file_operation op)) = both_of-redact op.content op.old_content
  bodies-redact (observation (file_operation_result r)) = body_of-redact r.content
  bodies-redact (action (tool_call a)) = refl
  bodies-redact (action (shell_command a)) = refl
  bodies-redact (action (web_fetch a)) = refl
  bodies-redact (observation (prompt_shown a)) = refl
  bodies-redact (observation (thought_had a)) = refl
  bodies-redact (observation (tool_output a)) = refl
  bodies-redact (observation (shell_command_output a)) = refl
  bodies-redact (observation (web_fetch_output a)) = refl
  bodies-redact (control c) = refl
  bodies-redact (state s) = refl

  without_bodies-redact :
      (p : TrajectoryEvent) → without_bodies (redact_payload sha256 p) ≡ without_bodies p
  unfolding redact_payload
  without_bodies-redact (action (file_operation op)) = refl
  without_bodies-redact (observation (file_operation_result r)) = refl
  without_bodies-redact (action (tool_call a)) = refl
  without_bodies-redact (action (shell_command a)) = refl
  without_bodies-redact (action (web_fetch a)) = refl
  without_bodies-redact (observation (prompt_shown a)) = refl
  without_bodies-redact (observation (thought_had a)) = refl
  without_bodies-redact (observation (tool_output a)) = refl
  without_bodies-redact (observation (shell_command_output a)) = refl
  without_bodies-redact (observation (web_fetch_output a)) = refl
  without_bodies-redact (control c) = refl
  without_bodies-redact (state s) = refl

-- Redaction replaces each file body of an event by its marker, in order, and changes nothing else
-- of the payload or of the envelope.
pub redact_file_content-bodies :
    (sha256 : List ℕ → Text) (e : Event)
    → (bodies (redact_file_content sha256 e).event ≡ map (redaction_marker sha256) (bodies e.event))
      × (without_bodies (redact_file_content sha256 e).event ≡ without_bodies e.event)
      × (record (redact_file_content sha256 e) { event = e.event } ≡ e)
unfolding redact_file_content
redact_file_content-bodies sha256 e =
    (bodies-redact sha256 e.event, without_bodies-redact sha256 e.event, refl)
