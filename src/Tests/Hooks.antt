-- ===== src/Tests/Hooks.antt =====
-- The hooks (crates/hooks/core, crates/hooks/claude) on concrete calls.
use sondera_coding_agent_hoo.Prelude.{
  ℕ, ◌+◌, ◌*◌, ◌≤◌, ◌≡◌, ◌⊎◌, ◌↔◌, true, none, some, [], ◌∷◌, ◌++◌, arith,
}
use sondera_coding_agent_hoo.Prelude.Text.{Text, codes}
use sondera_coding_agent_hoo.Prelude.Int.{pos}
use sondera_coding_agent_hoo.Types.Json.{Json, null, string, object, integer, member, closed}
use sondera_coding_agent_hoo.Types.Action.{Action, FileOperation}
use sondera_coding_agent_hoo.Types.Observation.{Observation}
use sondera_coding_agent_hoo.Types.Control.{Control}
use sondera_coding_agent_hoo.Hooks.Error.{HookError, service_timeout, fail_closed_reason}
use sondera_coding_agent_hoo.Hooks.Runner.{Timed, Result, returned, ok, resolve_hook}
use sondera_coding_agent_hoo.Hooks.Runner.Laws.{Enforced, resolve_hook-answers}
use sondera_coding_agent_hoo.Hooks.Tool.{normalize_tool_name, file_operation_for, is_file_operation}
use sondera_coding_agent_hoo.Hooks.Tool.Laws.{IsGrounded, file_operation_for-IsGrounded}
use sondera_coding_agent_hoo.Hooks.Claude.Response.{redact_tool_output}
use sondera_coding_agent_hoo.Hooks.Claude.Response.Withheld.{
  SameShape, redact_tool_output-SameShape,
}
use sondera_coding_agent_hoo.Hooks.Claude.FailClosed.Laws.{
  FailsClosed, fail_closed_response-FailsClosed,
}
use sondera_coding_agent_hoo.Hooks.Claude.Truncate.{
  byte_len, max_event_text_bytes, cap_action_strings, cap_observation_strings, cap_control_strings,
}
use sondera_coding_agent_hoo.Hooks.Claude.Truncate.Bounds.{
  action_bytes, observation_bytes, control_bytes, byte_len-append, cap_strings_bound,
}

-- An event that is read, a harness that is reached, and a handler that hangs.
abbrev reader : Timed (Result Json)
reader = record { takes = some 5; comes_to = returned (ok null) }

abbrev connect : Timed (Result (Unit {0}))
connect = record { takes = some 20; comes_to = returned (ok tt) }

abbrev hangs : Unit {0} → Json → Timed (Result Text)
hangs h v = record { takes = none; comes_to = returned (ok (codes "allow")) }

resolve_hook-answers_example :
    ((resolve_hook fail_closed_reason 30 1000 reader connect hangs).1 ≤ 1000 + 30 * 1000)
    × (((e : HookError) × ((resolve_hook fail_closed_reason 30 1000 reader connect hangs).0
            ≡ fail_closed_reason e))
        ⊎ Enforced reader connect hangs
            (resolve_hook fail_closed_reason 30 1000 reader connect hangs).0)
resolve_hook-answers_example = resolve_hook-answers fail_closed_reason 30 1000 reader connect hangs

abbrev arguments : Json
arguments = object (member (codes "file_path") (string (codes "/etc/passwd")) closed)

file_operation_for-IsGrounded_example :
    ((is_file_operation (codes "Read_File") arguments ≡ true) ↔ (
      (op : FileOperation) × (file_operation_for (codes "Read_File") arguments (codes "call-1")
        ≡ some op)))
    × ((op : FileOperation)
        → file_operation_for (codes "Read_File") arguments (codes "call-1") ≡ some op
        → IsGrounded (normalize_tool_name (codes "Read_File")) (codes "call-1") op)
file_operation_for-IsGrounded_example =
    file_operation_for-IsGrounded (codes "Read_File") arguments (codes "call-1")

-- Two outputs that differ in the text and the number.
abbrev output : Text → ℕ → Json
output s n = object (
    member (codes "type") (string (codes "text"))
      (member (codes "text") (string s) (member (codes "lines") (integer (pos n)) closed)))

redact_tool_output-SameShape_example :
    SameShape (output (codes "key=1") 3) (redact_tool_output (output (codes "key=1") 3))
    × (SameShape (output (codes "key=1") 3) (output [] 0)
        → redact_tool_output (output (codes "key=1") 3) ≡ redact_tool_output (output [] 0))
redact_tool_output-SameShape_example =
    redact_tool_output-SameShape (output (codes "key=1") 3) (output [] 0)

fail_closed_response-FailsClosed_example : FailsClosed (some arguments) service_timeout
fail_closed_response-FailsClosed_example =
    fail_closed_response-FailsClosed (some arguments) service_timeout

-- A serializer that quotes texts.
abbrev serialize : Json → Text
serialize (string s) = (b'"' ∷ []) ++ (s ++ b'"' ∷ [])
serialize v = codes "null"

quoted : (s : Text) → byte_len s ≤ byte_len (serialize (string s))
quoted s =
    omega (arith, byte_len-append (b'"' ∷ []) (s ++ b'"' ∷ []), byte_len-append s (b'"' ∷ []))

cap_strings_bound_example :
    ((a : Action)
      → action_bytes serialize (cap_action_strings serialize a max_event_text_bytes).0
        ≤ max_event_text_bytes + 130)
    × ((o : Observation)
        → observation_bytes serialize (cap_observation_strings serialize o max_event_text_bytes).0
          ≤ max_event_text_bytes + 130)
    × ((c : Control)
        → control_bytes (cap_control_strings c max_event_text_bytes).0 ≤ max_event_text_bytes + 130)
cap_strings_bound_example = cap_strings_bound serialize quoted max_event_text_bytes
