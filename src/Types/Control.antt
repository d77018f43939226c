-- ===== src/Types/Control.antt =====
-- Lifecycle records and verdicts: crates/types/src/trajectory/control.rs.
use sondera_coding_agent_hoo.Prelude.{Bool, true, false, Option, none, List, []}
use sondera_coding_agent_hoo.Prelude.Text.{Text}
use sondera_coding_agent_hoo.Types.Policy.{Decision, Mode, PolicyMetadata, monitor}
use sondera_coding_agent_hoo.Types.Guardrails.{GuardrailResults}
use sondera_coding_agent_hoo.Types.Agent.{Agent}
use sondera_coding_agent_hoo.Types.Scan.{Scanned}

pub record Started : Type 0 where
  pub agent : Agent
  pub task : Option Text

pub record Terminated : Type 0 where
  pub reason : Text
  pub terminated_by : Text

pub record Steering : Type 0 where
  pub instructions : List Text
  pub explanation : Text

pub record Adjudicated : Type 0 where
  pub decision : Decision
  pub mode : Mode
  pub reason : Option Text
  pub metadata : List PolicyMetadata
  pub guardrails : Option GuardrailResults
  pub steering : Option Steering

-- The one field of `Completed`, `Failed`, `Suspended` and `Resumed` stands for the struct.
pub data Control : Type 0 where
  started : Started → Control
  completed : (summary : Option Text) → Control
  failed : (reason : Text) → Control
  terminated : Terminated → Control
  suspended : (reason : Text) → Control
  resumed : (resumed_by : Text) → Control
  adjudicated : Adjudicated → Control
  scanned : Scanned → Control

unfoldable pub is_terminal : Control → Bool
is_terminal (completed summary) = true
is_terminal (failed reason) = true
is_terminal (terminated t) = true
is_terminal _ = false

unfoldable pub is_initial : Control → Bool
is_initial (started s) = true
is_initial _ = false

-- `Adjudicated::new`.
unfoldable pub new_adjudicated : Decision → Adjudicated
new_adjudicated d = record {
  decision = d;
  mode = monitor;
  reason = none;
  metadata = [];
  guardrails = none;
  steering = none;
}
