-- ===== src/Hooks/Claude/Truncate/Bounds.antt =====
-- No event outgrows its budget: crates/hooks/claude/src/truncate.rs.
use sondera_coding_agent_hoo.Prelude.{
  ℕ, ◌+◌, ◌≤◌, ◌<◌, true, false, Option, none, some, [], ◌≡◌, refl, inl, inr, leb, arith, ◌++◌, ◌∷◌,
  ◌⊎◌,
}
use sondera_coding_agent_hoo.Prelude.Text.{Text, encode_utf8}
use sondera_coding_agent_hoo.Types.Json.{Json, string}
use sondera_coding_agent_hoo.Types.Action.{
  Action, tool_call, shell_command, web_fetch, file_operation,
}
use sondera_coding_agent_hoo.Types.Observation.{
  Observation, prompt_shown, thought_had, tool_output, shell_command_output, web_fetch_output,
  file_operation_result,
}
use sondera_coding_agent_hoo.Types.Control.{Control}
use sondera_coding_agent_hoo.Hooks.Claude.Truncate.{
  byte_len, floor_boundary, prefix, truncation_marker, consume_string_budget, consume_optional,
  serialized_json_size, cap_json_value, cap_serialized, consume_json_budget, cap_action_strings,
  cap_observation_strings, cap_control_strings,
}
use sondera_coding_agent_hoo.Hooks.Claude.Truncate.Cut.{
  truncate_cases, byte_len-prefix, floor_boundary-is_char_boundary, floor_boundary_le,
}

pub byte_len-append : (s t : Text) → byte_len (s ++ t) ≡ byte_len s + byte_len t
unfolding byte_len
byte_len-append [] t = omega arith
byte_len-append (c ∷ s) t = omega (arith, byte_len-append s t)

marker_bytes : byte_len truncation_marker ≡ 65
unfolding byte_len encode_utf8
marker_bytes = refl

cut_bytes :
    (s : Text) (budget : ℕ)
    → byte_len (prefix s (floor_boundary s budget) ++ truncation_marker)
      ≡ floor_boundary s budget + 65
cut_bytes s budget = omega (
  arith,
  byte_len-append (prefix s (floor_boundary s budget)) truncation_marker,
  marker_bytes,
  byte_len-prefix s (floor_boundary s budget) (floor_boundary-is_char_boundary s budget),
)

-- A capped text and what is left of the budget exceed the budget by the marker at most.
consume_string_bound :
    (s : Text) (budget : ℕ)
    → byte_len (consume_string_budget s budget).value + (consume_string_budget s budget).budget
      ≤ budget + 65
unfolding consume_string_budget
consume_string_bound s budget = elim (truncate_cases s budget) [
  | inl (e, le) ↦ rw (e, consume_string_budget) (omega (arith, le))
  | inr (e, lt) ↦
      rw (e, consume_string_budget)
        (omega (arith, cut_bytes s budget, floor_boundary_le s budget, marker_bytes))
]

abbrev optional_bytes : Option Text → ℕ
optional_bytes none = 0
optional_bytes (some s) = byte_len s

consume_optional_bound :
    (o : Option Text) (budget : ℕ)
    → optional_bytes (consume_optional o budget).value + (consume_optional o budget).budget
      ≤ budget + 65
unfolding consume_optional
consume_optional_bound none budget = omega arith
consume_optional_bound (some s) budget = consume_string_bound s budget

module _ (serialize : Json → Text) where
  -- A text counts as it is, any other value as it is serialized.
  abbrev json_bytes : Json → ℕ
  json_bytes (string s) = byte_len s
  json_bytes v = byte_len (serialize v)

  -- The bytes of the fields that are capped.
  abbrev pub action_bytes : Action → ℕ
  action_bytes (shell_command x) = byte_len x.command + optional_bytes x.working_dir
  action_bytes (file_operation x) = optional_bytes x.content + optional_bytes x.old_content
  action_bytes (web_fetch x) = byte_len x.prompt + byte_len x.url
  action_bytes (tool_call x) = json_bytes x.arguments

  abbrev pub observation_bytes : Observation → ℕ
  observation_bytes (prompt_shown x) = byte_len x.content
  observation_bytes (thought_had x) = byte_len x.thought
  observation_bytes (tool_output x) = json_bytes x.output + optional_bytes x.error
  observation_bytes (shell_command_output x) = byte_len x.stdout + byte_len x.stderr
  observation_bytes (web_fetch_output x) = byte_len x.result + byte_len x.url
  observation_bytes (file_operation_result x) = optional_bytes x.content + optional_bytes x.error

  serialized_cases :
      (t : Text) (budget : ℕ)
      → ((cap_serialized t budget ≡ none) × (byte_len t ≤ budget))
        ⊎ (cap_serialized t budget ≡ some (prefix t (floor_boundary t budget) ++ truncation_marker))
  unfolding cap_serialized
  serialized_cases t budget = elim (truncate_cases t budget) [
    | inl (e, le) ↦ inl (rw (fits le) refl, le)
    | inr (e, lt) ↦ inr (rw (exceeds lt) refl)
  ]
    where
      fits : byte_len t ≤ budget → leb (byte_len t) budget ≡ true
      fits le = ground (arith, le)

      exceeds : budget < byte_len t → leb (byte_len t) budget ≡ false
      exceeds lt = ground (arith, lt)

  module _ (quoted : (s : Text) → byte_len s ≤ byte_len (serialize (string s))) where
    -- Either the value fits with its serialized form counted, or a cut text replaces it.
    json_cases :
        (v : Json) (budget : ℕ)
        → ((cap_json_value serialize v budget ≡ none) × (json_bytes v ≤ budget))
          ⊎ ((s : Text) × (cap_json_value serialize v budget
                ≡ some (prefix s (floor_boundary s budget) ++ truncation_marker)))
    unfolding cap_json_value
    json_cases (string s) budget = elim (truncate_cases s budget) [
      | inl (e, le) ↦ inl (e, le)
      | inr (e, lt) ↦ inr (s, e)
    ]
    json_cases v budget = elim (serialized_cases (serialize v) budget) [
      | inl (e, le) ↦ inl (e, le)
      | inr e ↦ inr (serialize v, e)
    ]

    json_size : (v : Json) → json_bytes v ≤ serialized_json_size serialize v
    unfolding serialized_json_size
    json_size (string s) = quoted s
    json_size v = omega arith

    consume_json_bound :
        (v : Json) (budget : ℕ)
        → json_bytes (consume_json_budget serialize v budget).value
            + (consume_json_budget serialize v budget).budget
          ≤ budget + 65
    unfolding consume_json_budget
    consume_json_bound v budget = elim (json_cases v budget) [
      | inl (e, le) ↦ rw (e, consume_json_budget) (omega (arith, le, json_size v))
      | inr (s, e) ↦
          rw (e, consume_json_budget)
            (omega (arith, cut_bytes s budget, floor_boundary_le s budget, marker_bytes))
    ]

    action_bound :
        (a : Action) (max : ℕ) → action_bytes (cap_action_strings serialize a max).0 ≤ max + 130
    unfolding cap_action_strings
    action_bound (shell_command x) max =
        omega (arith, consume_string_bound x.command max, consume_optional_bound x.working_dir _)
    action_bound (file_operation x) max =
        omega (arith, consume_optional_bound x.content max, consume_optional_bound x.old_content _)
    action_bound (web_fetch x) max =
        omega (arith, consume_string_bound x.prompt max, consume_string_bound x.url _)
    action_bound (tool_call x) max = omega (arith, consume_json_bound x.arguments max)

    observation_bound :
        (o : Observation) (max : ℕ)
        → observation_bytes (cap_observation_strings serialize o max).0 ≤ max + 130
    unfolding cap_observation_strings
    observation_bound (prompt_shown x) max = omega (arith, consume_string_bound x.content max)
    observation_bound (thought_had x) max = omega (arith, consume_string_bound x.thought max)
    observation_bound (tool_output x) max =
        omega (arith, consume_json_bound x.output max, consume_optional_bound x.error _)
    observation_bound (shell_command_output x) max =
        omega (arith, consume_string_bound x.stdout max, consume_string_bound x.stderr _)
    observation_bound (web_fetch_output x) max =
        omega (arith, consume_string_bound x.result max, consume_string_bound x.url _)
    observation_bound (file_operation_result x) max =
        omega (arith, consume_optional_bound x.content max, consume_optional_bound x.error _)

abbrev pub control_bytes : Control → ℕ
control_bytes (Control.started s) = optional_bytes s.task
control_bytes (Control.completed summary) = optional_bytes summary
control_bytes (Control.failed reason) = byte_len reason
control_bytes (Control.terminated t) = byte_len t.reason + byte_len t.terminated_by
control_bytes (Control.suspended reason) = byte_len reason
control_bytes (Control.resumed by) = byte_len by
control_bytes (Control.adjudicated a) = 0
control_bytes (Control.scanned s) = 0

control_bound : (c : Control) (max : ℕ) → control_bytes (cap_control_strings c max).0 ≤ max + 130
unfolding cap_control_strings
control_bound (Control.started s) max = omega (arith, consume_optional_bound s.task max)
control_bound (Control.completed summary) max = omega (arith, consume_optional_bound summary max)
control_bound (Control.failed reason) max = omega (arith, consume_string_bound reason max)
control_bound (Control.terminated t) max =
    omega (arith, consume_string_bound t.reason max, consume_string_bound t.terminated_by _)
control_bound (Control.suspended reason) max = omega (arith, consume_string_bound reason max)
control_bound (Control.resumed by) max = omega (arith, consume_string_bound by max)
control_bound (Control.adjudicated a) max = omega arith
control_bound (Control.scanned s) max = omega arith

-- No event outgrows its budget: the capped fields of an action, an observation or a lifecycle
-- record take together at most `max` bytes and two truncation markers of 65 bytes, also where each
-- of them alone would fill the budget. A serializer under which the JSON form of a text is shorter
-- than the text is excluded.
pub cap_strings_bound :
    (serialize : Json → Text)
    → ((s : Text) → byte_len s ≤ byte_len (serialize (string s)))
    → (max : ℕ)
    → ((a : Action) → action_bytes serialize (cap_action_strings serialize a max).0 ≤ max + 130)
      × ((o : Observation)
          → observation_bytes serialize (cap_observation_strings serialize o max).0 ≤ max + 130)
      × ((c : Control) → control_bytes (cap_control_strings c max).0 ≤ max + 130)
cap_strings_bound serialize quoted max = (
  λ a. action_bound serialize quoted a max,
  λ o. observation_bound serialize quoted o max,
  λ c. control_bound c max,
)
