-- ===== src/Guardrails/Violations.antt =====
-- The outcome of the policy classifier: `PolicyClassification` of
-- crates/guardrails/policy/src/policy.rs.
use sondera_coding_agent_hoo.Prelude.{Bool, List, [], ◌∷◌}
use sondera_coding_agent_hoo.Prelude.Text.{Text}
use sondera_coding_agent_hoo.Prelude.Sets.{set_insert}

pub record PolicyViolation : Type 0 where
  pub category : Text
  pub rule : Text
  pub description : Text

pub record PolicyClassification : Type 0 where
  pub compliant : Bool
  pub violations : List PolicyViolation

rules_of : List PolicyViolation → List Text → List Text
rules_of [] s = s
rules_of (v ∷ vs) s = rules_of vs (set_insert v.rule s)

-- `PolicyClassification::codes`.
unfoldable pub violated_codes : PolicyClassification → List Text
unfolding rules_of
violated_codes c = rules_of c.violations []
