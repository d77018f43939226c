-- ===== src/Cedar/Context.antt =====
-- The parts of a Cedar request context: crates/policy/cedar/src/transform.rs, and the fragments
-- of shell_parse.rs and url_parse.rs that go into it.
use sondera_coding_agent_hoo.Prelude.{
  ℕ, Bool, true, Option, none, some, List, [], ◌∷◌, length, if◌then◌else◌,
}
use sondera_coding_agent_hoo.Prelude.Text.{Text, codes, is_empty}
use sondera_coding_agent_hoo.Prelude.Int.{pos}
use sondera_coding_agent_hoo.Types.Json.{
  Json, Elements, Members, none_left, element, closed, member,
}
use sondera_coding_agent_hoo.Types.Action.{shell_command}
use sondera_coding_agent_hoo.Types.Event.{Event, TrajectoryEvent, action}
use sondera_coding_agent_hoo.Guardrails.Label.{Label, public, Classified, classified, max_label}
use sondera_coding_agent_hoo.Guardrails.Signature.{SignatureContext, severity_rank}
use sondera_coding_agent_hoo.Guardrails.Violations.{PolicyClassification, violated_codes}
use sondera_coding_agent_hoo.Cedar.Shell.Record.{ShellParse}
use sondera_coding_agent_hoo.Cedar.Url.{UrlParse}

abbrev pub texts : List Text → Json
texts ts = Json.array (elements ts)
  where
    elements : List Text → Elements
    elements [] = none_left
    elements (t ∷ ts) = element (Json.string t) (elements ts)

abbrev pub natural : ℕ → Json
natural n = Json.integer (pos n)

-- `json!({ ... })` from its fields in order.
abbrev pub members : List (Text × Json) → Members
members [] = closed
members ((key, value) ∷ rest) = member key value (members rest)

abbrev pub fields : List (Text × Json) → Json
fields fs = Json.object (members fs)

cwd_of : TrajectoryEvent → Text
cwd_of (action (shell_command c)) = elim c.working_dir [ none ↦ [] | some dir ↦ dir ]
cwd_of _ = []

unfoldable pub workspace_context : Event → Json
unfolding cwd_of
workspace_context e = fields ((codes "cwd", Json.string (cwd_of e.event)) ∷ [])

pub record PolicyContext : Type 0 where
  pub compliant : Bool
  pub violations : List Text

abbrev pub unjudged : PolicyContext
unjudged = record { compliant = true; violations = [] }

-- `PolicyContext::from`.
unfoldable pub from_classification : PolicyClassification → PolicyContext
from_classification c = record { compliant = c.compliant; violations = violated_codes c }

-- The outcome of `tokio::time::timeout`.
pub data Timed (A : Type 0) : Type 0 where
  in_time : A → Timed A
  elapsed : Timed A

label_of : Timed Classified → Label
label_of (in_time (classified c)) = max_label c
label_of _ = public

-- The model, where there is one, is a function from the content to what the timed call returns.
unfoldable pub classify_label : Option (Text → Timed Classified) → Text → Label
unfolding label_of
classify_label none content = public
classify_label (some model) content = if is_empty content then public else label_of (model content)

policy_of : Timed (Option PolicyClassification) → PolicyContext
policy_of (in_time (some c)) = from_classification c
policy_of _ = unjudged

-- `none` stands for the model's error.
unfoldable pub classify_policy :
    Option (Text → Timed (Option PolicyClassification)) → Text → PolicyContext
unfolding policy_of from_classification
classify_policy none content = unjudged
classify_policy (some model) content =
    if is_empty content then unjudged else policy_of (model content)

unfoldable pub policy_json : PolicyContext → Json
policy_json p =
    fields
      ((codes "compliant", Json.bool p.compliant) ∷ (codes "violations", texts p.violations) ∷ [])

unfoldable pub signature_json : SignatureContext → Json
signature_json sig = fields (
    (codes "matches", natural (length sig.matches))
    ∷ (codes "categories", texts sig.categories)
    ∷ (codes "severity", natural (severity_rank sig.severity))
    ∷ [])

-- `ShellParse::to_cedar_json`.
unfoldable pub shell_json : ShellParse → Json
shell_json p = fields (
    (codes "ok", Json.bool p.ok)
    ∷ (codes "programs", texts p.programs)
    ∷ (codes "program_flags", texts p.program_flags)
    ∷ (codes "program_flags_normalized", texts p.program_flags_normalized)
    ∷ (codes "program_args", texts p.program_args)
    ∷ (codes "program_args_normalized", texts p.program_args_normalized)
    ∷ (
      codes "program_arg_path_components_normalized",
      texts p.program_arg_path_components_normalized,
    )
    ∷ (codes "has_dynamic_command", Json.bool p.has_dynamic_command)
    ∷ (codes "has_command_substitution", Json.bool p.has_command_substitution)
    ∷ (codes "has_pipeline", Json.bool p.has_pipeline)
    ∷ (codes "has_redirection", Json.bool p.has_redirection)
    ∷ [])

-- `UrlParse::to_cedar_json`.
unfoldable pub url_json : UrlParse → Json
url_json p = fields (
    (codes "ok", Json.bool p.ok)
    ∷ (codes "scheme", Json.string p.scheme)
    ∷ (codes "host", Json.string p.host)
    ∷ (codes "port", natural p.port)
    ∷ [])
