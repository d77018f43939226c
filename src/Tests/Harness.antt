-- ===== src/Tests/Harness.antt =====
-- The harness (crates/policy/cedar/src/lib.rs and transform.rs) on one event: a read of a file
-- that a policy forbids.
use sondera_coding_agent_hoo.Prelude.{
  ℕ, ◌≡◌, ◌≢◌, ◌⊎◌, refl, sym, ap, ◌∙◌, Bool, true, false, Option, none, some, List, [], ◌∷◌, ◌++◌,
  map, Has, inl, inr, ◌≤◌,
}
use sondera_coding_agent_hoo.Prelude.Text.{Text, codes}
use sondera_coding_agent_hoo.Prelude.Unicode.{ascii_only}
use sondera_coding_agent_hoo.Types.Policy.{Decision}
use sondera_coding_agent_hoo.Types.Agent.{Agent}
use sondera_coding_agent_hoo.Types.Action.{file_operation, read}
use sondera_coding_agent_hoo.Types.Control.{Adjudicated, Control, new_adjudicated}
use sondera_coding_agent_hoo.Prelude.Int.{pos}
use sondera_coding_agent_hoo.Types.Event.{TrajectoryEvent}
use sondera_coding_agent_hoo.Cedar.Harness.Lifecycle.{Begun, adjudicate_event_started}
use sondera_coding_agent_hoo.Types.Event.{Event, Fresh, ActorType, action}
use sondera_coding_agent_hoo.Types.Json.{Json}
use sondera_coding_agent_hoo.Types.Redact.{redact_file_content, redaction_marker}
use sondera_coding_agent_hoo.Types.Redact.Laws.{bodies, without_bodies, redact_file_content-bodies}
use sondera_coding_agent_hoo.Guardrails.Label.{Label, level}
use sondera_coding_agent_hoo.Cedar.Verdict.{
  forbidden, Response, PolicySet, adjudicated_from_response,
}
use sondera_coding_agent_hoo.Cedar.Verdict.Laws.{
  expected, escalates, adjudicated_from_response_decision,
}
use sondera_coding_agent_hoo.Cedar.Verdict.Metadata.{adjudicated_from_response_metadata}
use sondera_coding_agent_hoo.Cedar.Entity.{Trajectory, into_entity, Uid, euid, increment}
use sondera_coding_agent_hoo.Cedar.Store.{Db, Faults, Result, ok, err}
use sondera_coding_agent_hoo.Cedar.Store.Kept.{IsKept, trajectory_at}
use sondera_coding_agent_hoo.Cedar.Request.{Outside, Request}
use sondera_coding_agent_hoo.Cedar.Request.Build.{build_request}
use sondera_coding_agent_hoo.Cedar.Request.Steps.{build_request_label, build_request_step}
use sondera_coding_agent_hoo.Cedar.Request.Marks.{build_request_marks}
use sondera_coding_agent_hoo.Cedar.Request.Targets.Marked.{marking_content, level_after}
use sondera_coding_agent_hoo.Cedar.Harness.{Harness, verdict_event, adjudicate_event, evaluate}
use sondera_coding_agent_hoo.Cedar.Harness.Laws.{Gains}
use sondera_coding_agent_hoo.Cedar.Harness.Ledger.{outcome_of, adjudicate_event_redacts}
use sondera_coding_agent_hoo.Cedar.Harness.Success.{Appends, both_events, adjudicate_event_records}

abbrev pub outside : Outside
outside = record {
  unicode = ascii_only;
  scanner = λ c. none;
  data_model = none;
  policy_model = none;
  parse_shell = λ c. none;
  parse_url = λ c. none;
  json_text = λ j. [];
  uid_json = λ u. Json.string u.id;
}

-- One policy, which asks for oversight.
abbrev policies : PolicySet
policies id = some ((codes "description", codes "secrets") ∷ (codes "escalate", []) ∷ [])

abbrev response : Response
response = record { decision = forbidden; reason = codes "p1" ∷ []; errors = [] }

abbrev pub digest : List ℕ → Text
digest s = codes "00"

abbrev harness : Harness
harness = record {
  outside = outside;
  policies = policies;
  invalid = λ r. none;
  authorize = λ r es. response;
  sha256 = digest;
}

abbrev pub no_faults : Faults
no_faults a db = none

abbrev pub agent : Agent
agent = record { id = codes "a"; provider = codes "p"; platform = codes "c" }

abbrev event : Event
event = record {
  event_id = codes "evt-1";
  trajectory_id = codes "t";
  agent = agent;
  timestamp = 0;
  event = action (
      file_operation (record {
        call_id = codes "call-1";
        operation = read;
        path = codes "/k";
        content = some (codes "secret");
        old_content = none;
      }));
  actor = record { id = codes "a"; actor_type = ActorType.agent };
  causality = record { correlation_id = codes "corr-1"; causation_id = none; parent_id = none };
}

abbrev pub fresh : Fresh
fresh = record { event_id = codes "evt-2"; correlation_id = codes "corr-2"; now = 1 }

abbrev pub db : Db
db = record { entities = []; events = []; file = [] }

abbrev verdict : Adjudicated
verdict = adjudicated_from_response response policies

verdict_escalates : verdict.decision ≡ Decision.escalate
unfolding adjudicated_from_response sondera_coding_agent_hoo.Types.Control.new_adjudicated
    sondera_coding_agent_hoo.Prelude.Text.text_eq
verdict_escalates = refl

adjudicated_from_response_decision_example : verdict.decision ≡ expected policies response
adjudicated_from_response_decision_example = adjudicated_from_response_decision response policies

adjudicated_from_response_metadata_example :
    (map (λ m. m.policy_id) verdict.metadata ≡ map some response.reason)
    × (map (λ m. m.escalate) verdict.metadata ≡ map (escalates policies) response.reason)
adjudicated_from_response_metadata_example = adjudicated_from_response_metadata response policies

outcome_escalates : outcome_of harness no_faults fresh event db ≡ ok verdict
unfolding evaluate sondera_coding_agent_hoo.Cedar.Store.find_entity
    sondera_coding_agent_hoo.Cedar.Store.put_entity
    sondera_coding_agent_hoo.Cedar.Store.ensure_agent_entity
    sondera_coding_agent_hoo.Cedar.Entity.uid_eq sondera_coding_agent_hoo.Prelude.Text.text_eq level
    sondera_coding_agent_hoo.Cedar.Context.classify_label sondera_coding_agent_hoo.Types.Json.get
    sondera_coding_agent_hoo.Types.Json.insert
    sondera_coding_agent_hoo.Guardrails.Label.label_from_str
    sondera_coding_agent_hoo.Guardrails.Label.serde_name
outcome_escalates = refl

refused :
    (a : Adjudicated)
    → outcome_of harness no_faults fresh event db ≡ ok a
    → a.decision ≢ Decision.allow
refused a e d =
    no_decision
      (sym verdict_escalates ∙ (ap (λ x. x.decision) (same (sym outcome_escalates ∙ e)) ∙ d))
  where
    same : ok verdict ≡ ok a → verdict ≡ a
    same k = cc

    no_decision : Decision.escalate ≡ Decision.allow → ⊥
    no_decision k = cc

adjudicate_event_redacts_example :
    Gains
      (λ x.
        (x ≡ redact_file_content digest event)
        ⊎ ((a : Adjudicated) × (x
              ≡ verdict_event harness no_faults fresh (redact_file_content digest event) a)))
      db
      (adjudicate_event harness no_faults fresh event db).1
adjudicate_event_redacts_example =
    adjudicate_event_redacts harness no_faults fresh event db tt refused

adjudicated_verdict : (adjudicate_event harness no_faults fresh event db).0 ≡ ok verdict
unfolding adjudicate_event sondera_coding_agent_hoo.Cedar.Store.find_entity
    sondera_coding_agent_hoo.Cedar.Store.put_entity sondera_coding_agent_hoo.Cedar.Entity.uid_eq
    sondera_coding_agent_hoo.Prelude.Text.text_eq level
    sondera_coding_agent_hoo.Cedar.Context.classify_label sondera_coding_agent_hoo.Types.Json.get
    sondera_coding_agent_hoo.Types.Json.insert
    sondera_coding_agent_hoo.Guardrails.Label.label_from_str
    sondera_coding_agent_hoo.Guardrails.Label.serde_name
adjudicated_verdict = refl

adjudicate_event_records_example :
    (outcome_of harness no_faults fresh event db ≡ ok verdict)
    × Appends
        (both_events harness no_faults fresh event verdict)
        db
        (adjudicate_event harness no_faults fresh event db).1
adjudicate_event_records_example =
    adjudicate_event_records harness no_faults fresh event db verdict tt adjudicated_verdict

redact_file_content-bodies_example :
    (bodies (redact_file_content digest event).event
      ≡ map (redaction_marker digest) (codes "secret" ∷ []))
    × (without_bodies (redact_file_content digest event).event ≡ without_bodies event.event)
    × (record (redact_file_content digest event) { event = event.event } ≡ event)
redact_file_content-bodies_example = redact_file_content-bodies digest event

abbrev no_request : Request
no_request = record {
  principal = agent_uid;
  action_id = agent_uid;
  resource = agent_uid;
  context = Json.null;
}
  where
    agent_uid : Uid
    agent_uid = euid (codes "Agent") (codes "a")

abbrev built : Request
built = elim (build_request outside no_faults event db).0 [ ok r ↦ r | err e ↦ no_request ]

request_built : (build_request outside no_faults event db).0 ≡ ok built
unfolding build_request sondera_coding_agent_hoo.Cedar.Store.find_entity
    sondera_coding_agent_hoo.Cedar.Store.put_entity sondera_coding_agent_hoo.Cedar.Entity.uid_eq
    sondera_coding_agent_hoo.Prelude.Text.text_eq level
    sondera_coding_agent_hoo.Cedar.Context.classify_label sondera_coding_agent_hoo.Types.Json.get
    sondera_coding_agent_hoo.Types.Json.insert
    sondera_coding_agent_hoo.Guardrails.Label.label_from_str
    sondera_coding_agent_hoo.Guardrails.Label.serde_name
request_built = refl

build_request_step_example :
    (trajectory_at (build_request outside no_faults event db).1 (codes "t")).step_count
    ≡ increment (trajectory_at db (codes "t")).step_count
build_request_step_example = build_request_step outside no_faults event db built tt request_built

-- A trajectory with a high label, and a `Started` record on it.
abbrev tainted_run : Trajectory
tainted_run = record {
  trajectory_id = codes "t";
  step_count = pos 4;
  label = Label.highly_confidential;
}

abbrev tainted : Db
tainted = record db { entities = ((into_entity tainted_run).uid, into_entity tainted_run) ∷ [] }

abbrev begin : Event
begin = record event {
  event = TrajectoryEvent.control (Control.started (record { agent = agent; task = none }));
}

tainted_label : (trajectory_at tainted (codes "t")).label ≡ Label.highly_confidential
unfolding sondera_coding_agent_hoo.Cedar.Store.find_entity
    sondera_coding_agent_hoo.Cedar.Entity.uid_eq sondera_coding_agent_hoo.Prelude.Text.text_eq
    into_entity sondera_coding_agent_hoo.Cedar.Entity.from_entity
    sondera_coding_agent_hoo.Types.Json.get sondera_coding_agent_hoo.Types.Json.insert
    sondera_coding_agent_hoo.Guardrails.Label.label_from_str
    sondera_coding_agent_hoo.Guardrails.Label.serde_name
tainted_label = refl

begun :
    (adjudicate_event harness no_faults fresh begin tainted).0 ≡ ok (new_adjudicated Decision.allow)
unfolding adjudicate_event sondera_coding_agent_hoo.Cedar.Store.find_entity
    sondera_coding_agent_hoo.Cedar.Entity.uid_eq sondera_coding_agent_hoo.Prelude.Text.text_eq
begun = refl

adjudicate_event_started_example :
    Begun begin
      (new_adjudicated Decision.allow)
      tainted
      (adjudicate_event harness no_faults fresh begin tainted).1
adjudicate_event_started_example =
    adjudicate_event_started harness no_faults fresh begin tainted
      (record { agent = agent; task = none }) (new_adjudicated Decision.allow) refl begun

build_request_label_example :
    IsKept (build_request outside no_faults event tainted).1.entities
    × ((id : Text)
        → level (trajectory_at tainted id).label
          ≤ level (trajectory_at (build_request outside no_faults event tainted).1 id).label)
build_request_label_example = build_request_label outside no_faults event tainted (refl, tt)

build_request_marks_example :
    level (trajectory_at (build_request outside no_faults event db).1 (codes "t")).label
    ≡ level_after outside no_faults event
        (marking_content outside event.event)
        (level (trajectory_at db (codes "t")).label)
build_request_marks_example = build_request_marks outside no_faults event db built tt request_built
