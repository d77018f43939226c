-- ===== src/Types/Summary.antt =====
-- The rollup of a run's events: crates/types/src/trajectory/summary.rs.
pub mod Fold
pub mod Verdicts
pub mod Lifecycle
use sondera_coding_agent_hoo.Prelude.{
  ℕ, ◌-◌, ◌/◌, ◌%◌, ◌^◌, Bool, true, false, ◌&&◌, not, Option, none, some, List, [], ◌∷◌,
  if◌then◌else◌, ltb, length,
}
use sondera_coding_agent_hoo.Prelude.Text.{Text}
use sondera_coding_agent_hoo.Prelude.Int.{ℤ, pos, negsuc}
use sondera_coding_agent_hoo.Types.Policy.{Decision}
use sondera_coding_agent_hoo.Types.Scan.{TranscriptDigest, TranscriptScan}
use sondera_coding_agent_hoo.Types.Status.{TrajectoryStatus}
use sondera_coding_agent_hoo.Types.Event.{Event}
use sondera_coding_agent_hoo.Types.Summary.Fold.{fold_event_details}
use sondera_coding_agent_hoo.Types.Summary.Verdicts.{run_decision, run_policy_hits}
use sondera_coding_agent_hoo.Types.Summary.Lifecycle.{
  run_status, run_summary, latest_digest, latest_scan,
}

pub record Trajectory : Type 0 where
  pub id : Text
  pub agent_id : Text
  pub started_at : Option ℕ
  pub duration_ms : ℕ
  pub decision : Option Decision
  pub event_count : ℤ
  pub policy_hits : List Text
  pub score : Option ℕ
  pub summary : Text
  pub status : TrajectoryStatus
  pub update_time : Option ℕ
  pub digest : Option TranscriptDigest
  pub scan : Option TranscriptScan

-- `n as i32` of a `usize`: the low 32 bits in two's complement.
unfoldable pub as_i32 : ℕ → ℤ
as_i32 n = let low = n % 2 ^ 32 in if ltb low (2 ^ 31) then pos low else negsuc (2 ^ 32 - 1 - low)

unfoldable pub first_time : List Event → Option ℕ
first_time [] = none
first_time (e ∷ es) = some e.timestamp

unfoldable pub last_time : List Event → Option ℕ
last_time [] = none
last_time (e ∷ es) = elim (last_time es) [ none ↦ some e.timestamp | some t ↦ some t ]

first_agent : List Event → Text
first_agent [] = []
first_agent (e ∷ es) = e.agent.id

-- Milliseconds between two times in nanoseconds, 0 where the last is before the first.
unfoldable pub duration : Option ℕ → Option ℕ → ℕ
duration (some first) (some last) = (last - first) / 1000000
duration _ _ = 0

-- `Trajectory::summarize`.
unfoldable pub summarize : Text → List Event → Trajectory
unfolding first_agent
summarize id events = record {
  id = id;
  agent_id = first_agent events;
  started_at = first_time events;
  duration_ms = duration (first_time events) (last_time events);
  decision = run_decision events;
  event_count = as_i32 (length (fold_event_details events));
  policy_hits = run_policy_hits events;
  score = none;
  summary = run_summary events none;
  status = run_status events;
  update_time = last_time events;
  digest = none;
  scan = none;
}

-- `Trajectory::detail`.
unfoldable pub detail : Text → List Event → Trajectory
unfolding summarize
detail id events = record (summarize id events) {
  summary = run_summary events (latest_digest events);
  digest = latest_digest events;
  scan = latest_scan events;
}
