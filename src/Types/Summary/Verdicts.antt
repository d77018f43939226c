-- ===== src/Types/Summary/Verdicts.antt =====
-- The verdict of a run and the policies that it hit (crates/types/src/trajectory/summary.rs).
pub mod Laws
use sondera_coding_agent_hoo.Prelude.{
  ℕ, Bool, Option, none, some, List, [], ◌∷◌, ◌++◌, if◌then◌else◌, ltb,
}
use sondera_coding_agent_hoo.Prelude.Text.{Text, contains_text}
use sondera_coding_agent_hoo.Types.Policy.{Decision, PolicyMetadata}
use sondera_coding_agent_hoo.Types.Control.{Control, Adjudicated}
use sondera_coding_agent_hoo.Types.Event.{Event, TrajectoryEvent}

unfoldable pub decision_severity : Decision → ℕ
decision_severity Decision.deny = 2
decision_severity Decision.escalate = 1
decision_severity Decision.allow = 0

-- The verdict that an event records, if it records one.
unfoldable pub verdict_of : TrajectoryEvent → Option Adjudicated
verdict_of (TrajectoryEvent.control (Control.adjudicated a)) = some a
verdict_of _ = none

-- The verdicts of a run, in the order of the events.
unfoldable pub verdicts : List Event → List Adjudicated
unfolding verdict_of
verdicts [] = []
verdicts (e ∷ es) =
    let rest = verdicts es in elim (verdict_of e.event) [ none ↦ rest | some a ↦ a ∷ rest ]

-- `max_by_key(decision_severity)`: of two that are equally severe, the later.
unfoldable pub most_severe : Option Decision → List Adjudicated → Option Decision
unfolding decision_severity
most_severe best [] = best
most_severe none (a ∷ rest) = most_severe (some a.decision) rest
most_severe (some d) (a ∷ rest) =
    most_severe
      (some (if ltb (decision_severity a.decision) (decision_severity d) then d else a.decision))
      rest

unfoldable pub run_decision : List Event → Option Decision
unfolding verdicts most_severe
run_decision events = most_severe none (verdicts events)

-- `policy_id.or_else(description)`.
unfoldable pub metadata_hit : PolicyMetadata → Option Text
metadata_hit m = elim m.policy_id [ none ↦ m.description | some id ↦ some id ]

first_hit : List PolicyMetadata → Option Text
unfolding metadata_hit
first_hit [] = none
first_hit (m ∷ ms) =
    let rest = first_hit ms in elim (metadata_hit m) [ none ↦ rest | some h ↦ some h ]

unfoldable pub adjudication_policy_hit : Adjudicated → Option Text
unfolding first_hit
adjudication_policy_hit a = first_hit a.metadata

add_hit : Option Text → List Text → List Text
add_hit none hits = hits
add_hit (some h) hits = if contains_text hits h then hits else hits ++ h ∷ []

-- One round of the loop over the verdicts: `Allow` is passed over.
unfoldable pub count_hit : Adjudicated → List Text → List Text
unfolding add_hit
count_hit a hits = elim a.decision [
  | Decision.allow ↦ hits
  | _ ↦ add_hit (adjudication_policy_hit a) hits
]

unfoldable pub hits_from : List Adjudicated → List Text → List Text
unfolding count_hit
hits_from [] hits = hits
hits_from (a ∷ rest) hits = hits_from rest (count_hit a hits)

unfoldable pub run_policy_hits : List Event → List Text
unfolding hits_from verdicts
run_policy_hits events = hits_from (verdicts events) []
