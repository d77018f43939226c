-- ===== src/Types/Status.antt =====
-- The lifecycle status of a trajectory: crates/types/src/trajectory/status.rs.
use sondera_coding_agent_hoo.Prelude.{Option, none, some, if◌then◌else◌, ◌≡◌, refl}
use sondera_coding_agent_hoo.Prelude.Text.{Text, codes, text_eq}
use sondera_coding_agent_hoo.Prelude.Unicode.{Unicode, text_to_lowercase}
use sondera_coding_agent_hoo.Types.Control.{Control}

pub data TrajectoryStatus : Type 0 where
  pending running completed failed terminated suspended : TrajectoryStatus

unfoldable pub from_control : Control → TrajectoryStatus
from_control (Control.started s) = TrajectoryStatus.running
from_control (Control.resumed by) = TrajectoryStatus.running
from_control (Control.completed summary) = TrajectoryStatus.completed
from_control (Control.failed reason) = TrajectoryStatus.failed
from_control (Control.terminated t) = TrajectoryStatus.terminated
from_control (Control.suspended reason) = TrajectoryStatus.suspended
from_control (Control.adjudicated a) = TrajectoryStatus.running
from_control (Control.scanned s) = TrajectoryStatus.running

unfoldable pub status_as_str : TrajectoryStatus → Text
status_as_str TrajectoryStatus.pending = codes "pending"
status_as_str TrajectoryStatus.running = codes "running"
status_as_str TrajectoryStatus.completed = codes "completed"
status_as_str TrajectoryStatus.failed = codes "failed"
status_as_str TrajectoryStatus.terminated = codes "terminated"
status_as_str TrajectoryStatus.suspended = codes "suspended"

status_named : Text → Option TrajectoryStatus
status_named s =
    if text_eq s (codes "pending")
    then some TrajectoryStatus.pending
    else if text_eq s (codes "running")
    then some TrajectoryStatus.running
    else if text_eq s (codes "completed")
    then some TrajectoryStatus.completed
    else if text_eq s (codes "failed")
    then some TrajectoryStatus.failed
    else if text_eq s (codes "terminated")
    then some TrajectoryStatus.terminated
    else if text_eq s (codes "suspended")
    then some TrajectoryStatus.suspended
    else none

-- `TrajectoryStatus::from_str`; `none` is its error, whose message repeats the text.
unfoldable pub status_from_str : Unicode → Text → Option TrajectoryStatus
unfolding status_named
status_from_str u s = status_named (text_to_lowercase u s)

-- The label of a status reads back as that status, whatever the tables of the characters outside
-- ASCII are.
pub status_from_str-as_str :
    (u : Unicode) (s : TrajectoryStatus) → status_from_str u (status_as_str s) ≡ some s
unfolding status_from_str status_as_str text_to_lowercase text_eq
status_from_str-as_str u TrajectoryStatus.pending = refl
status_from_str-as_str u TrajectoryStatus.running = refl
status_from_str-as_str u TrajectoryStatus.completed = refl
status_from_str-as_str u TrajectoryStatus.failed = refl
status_from_str-as_str u TrajectoryStatus.terminated = refl
status_from_str-as_str u TrajectoryStatus.suspended = refl
