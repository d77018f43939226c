-- ===== src/Types/Guardrails.antt =====
-- The guardrail results that a verdict carries: crates/types/src/guardrails.rs.
use sondera_coding_agent_hoo.Prelude.{Bool, Option, List}
use sondera_coding_agent_hoo.Prelude.Text.{Text}
use sondera_coding_agent_hoo.Types.Json.{HashMap}

pub record IfcGuardrailResult : Type 0 where
  pub label : Text
  pub fallback_reason : Option Text

pub record SignatureGuardrailMatch : Type 0 where
  pub rule : Text
  pub namespace : Option Text
  pub metadata : HashMap Text

pub record SignatureGuardrailResult : Type 0 where
  pub triggered : Bool
  pub severity : Option Text
  pub categories : List Text
  pub matches : List SignatureGuardrailMatch

pub record GuardrailResults : Type 0 where
  pub signature : Option SignatureGuardrailResult
  pub ifc : Option IfcGuardrailResult
