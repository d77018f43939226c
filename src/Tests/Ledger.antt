-- ===== src/Tests/Ledger.antt =====
-- A short run with a verdict and a scan on it: the fold, the verdict and the policy hits
-- (crates/types/src/trajectory/summary.rs), and the scans of its end (crates/harness/src/scan.rs).
use sondera_coding_agent_hoo.Prelude.{
  ℕ, ◌+◌, ◌*◌, ◌≤◌, ◌≡◌, refl, false, Option, none, some, List, [], ◌∷◌, map, length, inl, inr,
  arith,
}
use sondera_coding_agent_hoo.Prelude.Text.{Text, codes}
use sondera_coding_agent_hoo.Types.Policy.{Decision, new_metadata}
use sondera_coding_agent_hoo.Types.Agent.{Agent}
use sondera_coding_agent_hoo.Types.Action.{Action}
use sondera_coding_agent_hoo.Types.Control.{Adjudicated, Control, new_adjudicated}
use sondera_coding_agent_hoo.Types.Scan.{Scanned, EventScanResult, MessageType, AgentIntent}
use sondera_coding_agent_hoo.Types.Event.{Event, ActorType, TrajectoryEvent, action, control}
use sondera_coding_agent_hoo.Types.Summary.Fold.{fold_event_details, visible}
use sondera_coding_agent_hoo.Types.Summary.Fold.Laws.{shown, fold_event_details-shown}
use sondera_coding_agent_hoo.Types.Summary.Verdicts.{verdicts, run_decision, run_policy_hits}
use sondera_coding_agent_hoo.Types.Summary.Verdicts.Laws.{Judged, run_decision-Judged}
use sondera_coding_agent_hoo.Types.Summary.Lifecycle.{run_status}
use sondera_coding_agent_hoo.Scans.Scanner.{Model, answered, refused, timeout}
use sondera_coding_agent_hoo.Scans.Task.{ScanStore, Outside, scan_one, advance}
use sondera_coding_agent_hoo.Scans.Dispatch.{
  World, new_dispatcher, max_concurrency, dispatch, run_task, run_schedule,
}
use sondera_coding_agent_hoo.Scans.Run.{Reach, started, then_step, dispatched, advanced}
use sondera_coding_agent_hoo.Scans.Run.Permits.{Reach-permits}
use sondera_coding_agent_hoo.Scans.Run.Rows.{IsBacked}
use sondera_coding_agent_hoo.Scans.Run.Backed.{Reach-IsBacked}
use sondera_coding_agent_hoo.Scans.Run.Ends.{
  IsBusy, run_schedule-IsBusy, first_each, first_each-ends,
}
use sondera_coding_agent_hoo.Scans.Run.Starts.{Started, wanted, dispatch-Started}
use sondera_coding_agent_hoo.Scans.Run.Apart.{run_schedule-apart}

abbrev agent : Agent
agent = record { id = codes "a"; provider = codes "p"; platform = codes "codex" }

abbrev at : Text → Option Text → TrajectoryEvent → Event
at id cause payload = record {
  event_id = id;
  trajectory_id = codes "t";
  agent = agent;
  timestamp = 0;
  event = payload;
  actor = record { id = codes "a"; actor_type = ActorType.agent };
  causality = record { correlation_id = codes "c"; causation_id = cause; parent_id = none };
}

abbrev command : Event
command = at (codes "e1") none (
    action (
      Action.shell_command
        (record { call_id = codes "call-1"; command = codes "rm -r /"; working_dir = none })))

abbrev denied : Adjudicated
denied = record (new_adjudicated Decision.deny) {
  metadata = record new_metadata { policy_id = some (codes "p1") } ∷ [];
}

abbrev verdict : Event
verdict = at (codes "e2") (some (codes "e1")) (control (Control.adjudicated denied))

abbrev done : Event
done = at (codes "e3") none (control (Control.completed none))

abbrev run : List Event
run = command ∷ verdict ∷ done ∷ []

fold_event_details-shown_example : fold_event_details run ≡ map (shown run) (visible run)
fold_event_details-shown_example = fold_event_details-shown run

run_denied : run_decision run ≡ some Decision.deny
unfolding run_decision new_adjudicated
run_denied = refl

run_decision-Judged_example : Judged (verdicts run) (run_decision run)
run_decision-Judged_example = run_decision-Judged run

abbrev result : EventScanResult
result = record {
  explanation = [];
  message_type = MessageType.lifecycle;
  intent = AgentIntent.manage_lifecycle;
  description = [];
  key_entities = [];
  is_side_effecting = false;
  signals = [];
  confidence = 0;
  embedding = none;
}

-- A model that classifies events and times out on transcripts.
abbrev model : Model
model = record {
  extract_event = λ e. answered result;
  extract_digest = λ id es. refused timeout;
  extract_scan = λ id es. refused timeout;
}

abbrev outside : Outside
outside = record {
  model = model;
  refuses = false;
  trajectory_events = λ id ledger. ledger;
  fresh = record { event_id = codes "e4"; correlation_id = codes "c4"; now = 1 };
}

abbrev store : ScanStore
store = record { ledger = run; event_scans = []; digests = []; scans = [] }

abbrev idle : World
idle = new_dispatcher (max_concurrency 0) store

-- The only permit goes to the transcript scan, which starts to run.
abbrev busy : World
busy = run_task outside 0 (dispatch done idle)

abbrev to_busy : Reach idle busy
to_busy = then_step (then_step started (dispatched done)) (advanced outside 0)

Reach-permits_example :
    (length busy.tasks ≤ max_concurrency 0)
    × (busy.free + length busy.tasks ≡ max_concurrency 0)
    × (1 ≤ max_concurrency 0)
Reach-permits_example = Reach-permits 0 store busy to_busy

run-IsBacked : IsBacked store
run-IsBacked e (inl h) x k = absurd (clash h k)
  where
    clash : {x : Scanned} → e ≡ command → e.event ≡ control (Control.scanned x) → ⊥
    clash h k = cc
run-IsBacked e (inr (inl h)) x k = absurd (clash h k)
  where
    clash : {x : Scanned} → e ≡ verdict → e.event ≡ control (Control.scanned x) → ⊥
    clash h k = cc
run-IsBacked e (inr (inr (inl h))) x k = absurd (clash h k)
  where
    clash : {x : Scanned} → e ≡ done → e.event ≡ control (Control.scanned x) → ⊥
    clash h k = cc
run-IsBacked e (inr (inr (inr m))) x k = absurd m

-- The scan of the command: its row is stored, and then its record is appended.
abbrev recorded : World
recorded = run_task outside 0 (run_task outside 0 (dispatch command idle))

abbrev to_recorded : Reach idle recorded
to_recorded =
    then_step (then_step (then_step started (dispatched command)) (advanced outside 0))
      (advanced outside 0)

recorded_ledger : length recorded.store.ledger ≡ 4
unfolding run_task dispatch sondera_coding_agent_hoo.Scans.Scanner.is_scanner_output
    sondera_coding_agent_hoo.Scans.Scanner.should_scan_transcript
    sondera_coding_agent_hoo.Scans.Scanner.should_digest_interim
    sondera_coding_agent_hoo.Prelude.Text.text_eq new_dispatcher max_concurrency advance
recorded_ledger = refl

Reach-IsBacked_example : IsBacked recorded.store
Reach-IsBacked_example = Reach-IsBacked (max_concurrency 0) store recorded run-IsBacked to_recorded

-- A scan of one event: the model answers and the row is stored, then the record is appended.
abbrev one : World
one = record { free = 3; tasks = scan_one done ∷ []; store = store }

abbrev schedule : List (Outside × ℕ)
schedule = (outside, 0) ∷ (outside, 0) ∷ []

one-IsBusy : IsBusy schedule one
unfolding run_task advance
one-IsBusy = (omega arith, (omega arith, tt))

run_schedule-IsBusy_example : length schedule ≤ 5 * length one.tasks
run_schedule-IsBusy_example = run_schedule-IsBusy schedule one one-IsBusy

first_each-ends_example :
    ((run_schedule (first_each (λ k. outside) (5 * length busy.tasks)) busy).tasks ≡ [])
    × ((run_schedule (first_each (λ k. outside) (5 * length busy.tasks)) busy).free
        ≡ max_concurrency 0)
first_each-ends_example = first_each-ends (max_concurrency 0) store busy (λ k. outside) to_busy

run_schedule-apart_example :
    (visible (run_schedule schedule one).store.ledger ≡ visible run)
    × (run_decision (run_schedule schedule one).store.ledger ≡ run_decision run)
    × (run_policy_hits (run_schedule schedule one).store.ledger ≡ run_policy_hits run)
    × (run_status (run_schedule schedule one).store.ledger ≡ run_status run)
run_schedule-apart_example = run_schedule-apart schedule one

dispatch-Started_example : Started (wanted done) idle (dispatch done idle)
dispatch-Started_example = dispatch-Started done idle
