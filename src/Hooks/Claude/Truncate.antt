-- ===== src/Hooks/Claude/Truncate.antt =====
-- The caps on an event's text: crates/hooks/claude/src/truncate.rs. Lengths count the bytes of the
-- UTF-8 form; the serializer of JSON is a parameter.
pub mod Cut
pub mod Bounds
use sondera_coding_agent_hoo.Prelude.{
  ℕ, zero, suc, ◌+◌, ◌-◌, ◌*◌, Bool, true, false, ◌||◌, Option, none, some, List, [], ◌∷◌, ◌++◌,
  if◌then◌else◌, leb, ltb, length,
}
use sondera_coding_agent_hoo.Prelude.Text.{Text, codes, as_bytes, encode_utf8}
use sondera_coding_agent_hoo.Types.Json.{Json, string}
use sondera_coding_agent_hoo.Types.Action.{
  Action, tool_call, shell_command, web_fetch, file_operation,
}
use sondera_coding_agent_hoo.Types.Observation.{
  Observation, prompt_shown, thought_had, tool_output, shell_command_output, web_fetch_output,
  file_operation_result,
}
use sondera_coding_agent_hoo.Types.Control.{Control}

abbrev pub max_event_text_bytes : ℕ
max_event_text_bytes = 15 * 1024 * 1024

abbrev pub truncation_marker : Text
truncation_marker = codes "\n\n[…truncated by Sondera claude hook to fit gRPC message limit]"

-- `s.len()`.
unfoldable pub byte_len : Text → ℕ
unfolding encode_utf8
byte_len [] = 0
byte_len (c ∷ s) = length (encode_utf8 c) + byte_len s

-- `s.is_char_boundary(n)`.
unfoldable pub is_char_boundary : Text → ℕ → Bool
unfolding encode_utf8
is_char_boundary s zero = true
is_char_boundary [] (suc n) = false
is_char_boundary (c ∷ s) (suc n) =
    let rest = is_char_boundary s (suc n - length (encode_utf8 c)) in
    if leb (length (encode_utf8 c)) (suc n) then rest else false

-- The loop that moves `cut` down to a boundary.
unfoldable pub floor_boundary : Text → ℕ → ℕ
unfolding is_char_boundary
floor_boundary s zero = zero
floor_boundary s (suc n) =
    let lower = floor_boundary s n in if is_char_boundary s (suc n) then suc n else lower

-- `&s[..n]` at a boundary.
unfoldable pub prefix : Text → ℕ → Text
unfolding encode_utf8
prefix s zero = []
prefix [] (suc n) = []
prefix (c ∷ s) (suc n) = c ∷ prefix s (suc n - length (encode_utf8 c))

-- `truncate_event_text`: none where the text fits and is borrowed.
unfoldable pub truncate_event_text : Text → ℕ → Option Text
unfolding byte_len floor_boundary prefix
truncate_event_text s max_bytes =
    if leb (byte_len s) max_bytes
    then none
    else some (prefix s (floor_boundary s max_bytes) ++ truncation_marker)

-- A field after its cap, the budget that is left, and whether the cap fired.
pub record Capped (A : Type 0) : Type 0 where
  pub value : A
  pub budget : ℕ
  pub truncated : Bool

-- `consume_string_budget`, with `cap_string`: the marker is not charged.
unfoldable pub consume_string_budget : Text → ℕ → Capped Text
unfolding truncate_event_text byte_len
consume_string_budget s budget = elim (truncate_event_text s budget) [
  | none ↦ record { value = s; budget = budget - byte_len s; truncated = false }
  | some t ↦ record {
    value = t;
    budget = budget - (byte_len t - byte_len truncation_marker);
    truncated = true;
  }
]

-- The cap of an optional field.
unfoldable pub consume_optional : Option Text → ℕ → Capped (Option Text)
unfolding consume_string_budget
consume_optional none budget = record { value = none; budget = budget; truncated = false }
consume_optional (some s) budget =
    let c = consume_string_budget s budget in
    record { value = some c.value; budget = c.budget; truncated = c.truncated }

-- The serialized form of a value that is no text, cut where it does not fit.
unfoldable pub cap_serialized : Text → ℕ → Option Text
unfolding truncate_event_text byte_len
cap_serialized t max_bytes =
    if leb (byte_len t) max_bytes
    then none
    else elim (truncate_event_text t max_bytes) [ none ↦ some t | some u ↦ some u ]

module _ (serialize : Json → Text) where
  -- What a value takes once it is serialized.
  unfoldable pub serialized_json_size : Json → ℕ
  unfolding byte_len
  serialized_json_size v = byte_len (serialize v)

  -- `cap_json_value`: the text that replaces the value, where it does not fit.
  unfoldable pub cap_json_value : Json → ℕ → Option Text
  unfolding truncate_event_text cap_serialized
  cap_json_value (string s) max_bytes = truncate_event_text s max_bytes
  cap_json_value v max_bytes = cap_serialized (serialize v) max_bytes

  unfoldable pub consume_json_budget : Json → ℕ → Capped Json
  unfolding cap_json_value serialized_json_size byte_len
  consume_json_budget v budget = elim (cap_json_value v budget) [
    | none ↦ record { value = v; budget = budget - serialized_json_size v; truncated = false }
    | some t ↦ record {
      value = string t;
      budget = budget - (byte_len t - byte_len truncation_marker);
      truncated = true;
    }
  ]

  -- `cap_action_strings`, with whether a cap fired.
  unfoldable pub cap_action_strings : Action → ℕ → Action × Bool
  unfolding consume_string_budget consume_optional consume_json_budget
  cap_action_strings (shell_command x) max_bytes =
      let a = consume_string_budget x.command max_bytes in
      let b = consume_optional x.working_dir a.budget in
      (
        shell_command (record x { command = a.value; working_dir = b.value }),
        a.truncated || b.truncated,
      )
  cap_action_strings (file_operation x) max_bytes =
      let a = consume_optional x.content max_bytes in
      let b = consume_optional x.old_content a.budget in
      (
        file_operation (record x { content = a.value; old_content = b.value }),
        a.truncated || b.truncated,
      )
  cap_action_strings (web_fetch x) max_bytes =
      let a = consume_string_budget x.prompt max_bytes in
      let b = consume_string_budget x.url a.budget in
      (web_fetch (record x { prompt = a.value; url = b.value }), a.truncated || b.truncated)
  cap_action_strings (tool_call x) max_bytes =
      let a = consume_json_budget x.arguments max_bytes in
      (tool_call (record x { arguments = a.value }), a.truncated)

  -- `cap_observation_strings`.
  unfoldable pub cap_observation_strings : Observation → ℕ → Observation × Bool
  unfolding consume_string_budget consume_optional consume_json_budget
  cap_observation_strings (prompt_shown x) max_bytes =
      let a = consume_string_budget x.content max_bytes in
      (prompt_shown (record x { content = a.value }), a.truncated)
  cap_observation_strings (thought_had x) max_bytes =
      let a = consume_string_budget x.thought max_bytes in
      (thought_had (record x { thought = a.value }), a.truncated)
  cap_observation_strings (tool_output x) max_bytes =
      let a = consume_json_budget x.output max_bytes in
      let b = consume_optional x.error a.budget in
      (tool_output (record x { output = a.value; error = b.value }), a.truncated || b.truncated)
  cap_observation_strings (shell_command_output x) max_bytes =
      let a = consume_string_budget x.stdout max_bytes in
      let b = consume_string_budget x.stderr a.budget in
      (
        shell_command_output (record x { stdout = a.value; stderr = b.value }),
        a.truncated || b.truncated,
      )
  cap_observation_strings (web_fetch_output x) max_bytes =
      let a = consume_string_budget x.result max_bytes in
      let b = consume_string_budget x.url a.budget in
      (web_fetch_output (record x { result = a.value; url = b.value }), a.truncated || b.truncated)
  cap_observation_strings (file_operation_result x) max_bytes =
      let a = consume_optional x.content max_bytes in
      let b = consume_optional x.error a.budget in
      (
        file_operation_result (record x { content = a.value; error = b.value }),
        a.truncated || b.truncated,
      )

-- `cap_control_strings`.
unfoldable pub cap_control_strings : Control → ℕ → Control × Bool
unfolding consume_string_budget consume_optional
cap_control_strings (Control.started s) max_bytes =
    let a = consume_optional s.task max_bytes in
    (Control.started (record s { task = a.value }), a.truncated)
cap_control_strings (Control.completed summary) max_bytes =
    let a = consume_optional summary max_bytes in (Control.completed a.value, a.truncated)
cap_control_strings (Control.failed reason) max_bytes =
    let a = consume_string_budget reason max_bytes in (Control.failed a.value, a.truncated)
cap_control_strings (Control.terminated t) max_bytes =
    let a = consume_string_budget t.reason max_bytes in
    let b = consume_string_budget t.terminated_by a.budget in
    (
      Control.terminated (record t { reason = a.value; terminated_by = b.value }),
      a.truncated || b.truncated,
    )
cap_control_strings (Control.suspended reason) max_bytes =
    let a = consume_string_budget reason max_bytes in (Control.suspended a.value, a.truncated)
cap_control_strings (Control.resumed by) max_bytes =
    let a = consume_string_budget by max_bytes in (Control.resumed a.value, a.truncated)
cap_control_strings (Control.adjudicated a) max_bytes = (Control.adjudicated a, false)
cap_control_strings (Control.scanned s) max_bytes = (Control.scanned s, false)
