-- ===== src/Cedar/Harness/Shown.antt =====
-- A verdict as a reader sees it: what an adjudication (crates/policy/cedar/src/lib.rs) leaves in
-- the ledger, read through the fold of crates/types/src/trajectory/summary.rs.
use sondera_coding_agent_hoo.Prelude.{◌≤◌, false, none, some, List, [], ◌∷◌, ◌++◌, map, ◌≡◌}
use sondera_coding_agent_hoo.Prelude.Text.{Text}
use sondera_coding_agent_hoo.Types.Policy.{Decision}
use sondera_coding_agent_hoo.Types.Control.{Adjudicated}
use sondera_coding_agent_hoo.Types.Action.{Action}
use sondera_coding_agent_hoo.Types.Observation.{Observation}
use sondera_coding_agent_hoo.Types.Event.{Event}
use sondera_coding_agent_hoo.Types.Summary.Fold.{folded_payload, visible, fold_event_details}
use sondera_coding_agent_hoo.Types.Summary.Fold.Laws.{shown}
use sondera_coding_agent_hoo.Types.Summary.Lifecycle.{status_of, run_status}
use sondera_coding_agent_hoo.Types.Summary.Verdicts.{decision_severity, run_decision}
use sondera_coding_agent_hoo.Cedar.Harness.{Harness}

-- What a reader learns from two appended events, the judged one and its verdict.
pub record Displayed (run run' : List Event) (stored : Event) (a : Adjudicated) : Type 0 where
  pub rows :
      fold_event_details run'
      ≡ map (shown run') (visible run) ++ record (shown run' stored) { adjudication = some a } ∷ []
  pub status : run_status run' ≡ run_status run
  pub decision :
      (d : Decision) × ((run_decision run' ≡ some d)
        × (decision_severity a.decision ≤ decision_severity d))

-- The payload of a judged event, redacted or not.
IsShown : Event → Type 0
IsShown e = (folded_payload e.event ≡ false) × (status_of e.event ≡ none)
