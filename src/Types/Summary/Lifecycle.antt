-- ===== src/Types/Summary/Lifecycle.antt =====
-- The status, the description and the latest scans of a run
-- (crates/types/src/trajectory/summary.rs).
pub mod Laws
use sondera_coding_agent_hoo.Prelude.{Option, none, some, List, [], ◌∷◌}
use sondera_coding_agent_hoo.Prelude.Text.{Text}
use sondera_coding_agent_hoo.Types.Scan.{
  Scanned, TranscriptDigest, TranscriptScan, TranscriptScanResult, transcript_digest_result,
  transcript_scan_result, source_event_id,
}
use sondera_coding_agent_hoo.Types.Control.{Control}
use sondera_coding_agent_hoo.Types.Status.{TrajectoryStatus, from_control}
use sondera_coding_agent_hoo.Types.Event.{Event, TrajectoryEvent}

-- `events.iter().rev().find_map(f)` for an `f` that looks at the payload.
unfoldable pub find_last : {B : Type 0} → (TrajectoryEvent → Option B) → List Event → Option B
find_last f [] = none
find_last f (e ∷ es) = elim (find_last f es) [ none ↦ f e.event | some b ↦ some b ]

-- `unwrap_or(d)`.
unfoldable pub value_or : {B : Type 0} → B → Option B → B
value_or d none = d
value_or d (some b) = b

lifecycle_status : Control → Option TrajectoryStatus
lifecycle_status (Control.adjudicated a) = none
lifecycle_status (Control.scanned s) = none
lifecycle_status c = some (from_control c)

unfoldable pub status_of : TrajectoryEvent → Option TrajectoryStatus
unfolding lifecycle_status
status_of (TrajectoryEvent.control c) = lifecycle_status c
status_of _ = none

unfoldable pub run_status : List Event → TrajectoryStatus
unfolding find_last status_of value_or
run_status events = value_or TrajectoryStatus.pending (find_last status_of events)

digest_of : TrajectoryEvent → Option TranscriptDigest
digest_of (TrajectoryEvent.control (Control.scanned s)) = transcript_digest_result s
digest_of _ = none

unfoldable pub latest_digest : List Event → Option TranscriptDigest
unfolding find_last digest_of
latest_digest events = find_last digest_of events

with_source : Scanned → Option TranscriptScanResult → Option TranscriptScan
with_source s none = none
with_source s (some r) = some (record { source_event_id = source_event_id s; result = r })

scan_of : TrajectoryEvent → Option TranscriptScan
unfolding with_source
scan_of (TrajectoryEvent.control (Control.scanned s)) = with_source s (transcript_scan_result s)
scan_of _ = none

unfoldable pub latest_scan : List Event → Option TranscriptScan
unfolding find_last scan_of
latest_scan events = find_last scan_of events

ending_of : TrajectoryEvent → Option Text
unfolding value_or
ending_of (TrajectoryEvent.control (Control.completed summary)) = some (value_or [] summary)
ending_of (TrajectoryEvent.control (Control.failed reason)) = some reason
ending_of (TrajectoryEvent.control (Control.terminated t)) = some t.reason
ending_of _ = none

unfoldable pub run_summary : List Event → Option TranscriptDigest → Text
unfolding find_last ending_of value_or
run_summary events (some digest) = digest.title
run_summary events none = value_or [] (find_last ending_of events)
