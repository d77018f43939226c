-- ===== src/Types/Summary/Fold.antt =====
-- The governance fold of crates/types/src/trajectory/summary.rs: verdicts and scans are hidden
-- and attached to the events that they are about.
pub mod Laws
use sondera_coding_agent_hoo.Prelude.{
  Bool, true, false, not, Option, none, some, List, [], ◌∷◌, if◌then◌else◌,
}
use sondera_coding_agent_hoo.Prelude.Text.{Text}
use sondera_coding_agent_hoo.Types.Json.{HashMap, insert, get}
use sondera_coding_agent_hoo.Types.Scan.{EventScanResult, Scanned, event_scan_result}
use sondera_coding_agent_hoo.Types.Control.{Control, Adjudicated}
use sondera_coding_agent_hoo.Types.Event.{Event, TrajectoryEvent}

pub record EventDetail : Type 0 where
  pub event : Event
  pub adjudication : Option Adjudicated
  pub summary : Option EventScanResult

-- The two maps that the loop fills.
pub record Attached : Type 0 where
  pub adjudications : HashMap Adjudicated
  pub summaries : HashMap EventScanResult

unfoldable pub attach_scan : Text → Option EventScanResult → Attached → Attached
attach_scan source none s = s
attach_scan source (some r) s = record s { summaries = insert s.summaries source r }

unfoldable pub attach_control : Control → Option Text → Attached → Attached
unfolding attach_scan
attach_control c none s = s
attach_control (Control.adjudicated a) (some source) s = record s {
  adjudications = insert s.adjudications source a;
}
attach_control (Control.scanned x) (some source) s = attach_scan source (event_scan_result x) s
attach_control c (some source) s = s

unfoldable pub attach : Event → Attached → Attached
unfolding attach_control
attach e s = elim e.event [
  | TrajectoryEvent.control c ↦ attach_control c e.causality.causation_id s
  | _ ↦ s
]

unfoldable pub attach_all : List Event → Attached → Attached
unfolding attach
attach_all [] s = s
attach_all (e ∷ es) s = attach_all es (attach e s)

unfoldable pub folded_payload : TrajectoryEvent → Bool
folded_payload (TrajectoryEvent.control (Control.adjudicated a)) = true
folded_payload (TrajectoryEvent.control (Control.scanned s)) = true
folded_payload _ = false

unfoldable pub is_folded_control : Event → Bool
unfolding folded_payload
is_folded_control e = folded_payload e.event

-- The events that a reader sees.
unfoldable pub visible : List Event → List Event
visible [] = []
visible (e ∷ es) = let rest = visible es in if is_folded_control e then rest else e ∷ rest

unfoldable pub detail_of : Attached → Event → EventDetail
detail_of s e = record {
  event = e;
  adjudication = get s.adjudications e.event_id;
  summary = get s.summaries e.event_id;
}

unfoldable pub details : Attached → List Event → List EventDetail
unfolding detail_of
details s [] = []
details s (e ∷ es) = detail_of s e ∷ details s es

unfoldable pub fold_event_details : List Event → List EventDetail
unfolding attach_all visible details
fold_event_details events =
    details (attach_all events (record { adjudications = []; summaries = [] })) (visible events)
