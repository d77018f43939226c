-- ===== src/Cedar/Harness.antt =====
-- `adjudicate_event`, `evaluate` and `persist` of crates/policy/cedar/src/lib.rs.
pub mod Laws
pub mod Ledger
pub mod Success
pub mod Lifecycle
pub mod Shown
use sondera_coding_agent_hoo.Prelude.{
  ℕ, Bool, true, false, Option, none, some, List, [], ◌∷◌, if◌then◌else◌,
}
use sondera_coding_agent_hoo.Prelude.Text.{Text, codes}
use sondera_coding_agent_hoo.Types.Policy.{Decision}
use sondera_coding_agent_hoo.Types.Control.{
  Control, Adjudicated, started, adjudicated, new_adjudicated,
}
use sondera_coding_agent_hoo.Types.Event.{
  Event, Fresh, Actor, ActorType, control, new_event, with_actor, with_causality, caused_by,
  default_causality,
}
use sondera_coding_agent_hoo.Types.Redact.{redact_file_content}
use sondera_coding_agent_hoo.Cedar.Verdict.{Response, PolicySet, adjudicated_from_response}
use sondera_coding_agent_hoo.Cedar.Entity.{Uid, Entity, euid, new_trajectory, into_entity}
use sondera_coding_agent_hoo.Cedar.Store.{
  Db, Faults, Result, Outcome, ok, err, and_then, all_entities, attempt, get, upsert, persist,
  ensure_agent_entity,
}
use sondera_coding_agent_hoo.Cedar.Request.{Outside, Request}
use sondera_coding_agent_hoo.Cedar.Request.Build.{build_request}

-- The loaded harness: the collaborators of `build_request`, the compiled policies, the schema
-- check of `Request::new` (its error, if any), the Cedar authorizer and SHA-256.
pub record Harness : Type 0 where
  pub outside : Outside
  pub policies : PolicySet
  pub invalid : Request → Option Text
  pub authorize : Request → List (Uid × Entity) → Response
  pub sha256 : List ℕ → Text

module _ (h : Harness) (faults : Faults) where
  -- `is_authorized`.
  unfoldable pub is_authorized : Request → Db → Outcome Response
  is_authorized request db =
      and_then (attempt faults all_entities db db.entities db)
        (λ entities db1. (ok (h.authorize request entities), db1))

  judge : Request → Db → Outcome Adjudicated
  unfolding is_authorized
  judge request db = elim (h.invalid request) [
    | some e ↦ (err e, db)
    | none ↦
        and_then (is_authorized request db)
          (λ response db1. (ok (adjudicated_from_response response h.policies), db1))
  ]

  unfoldable pub evaluate : Event → Db → Outcome Adjudicated
  unfolding judge build_request
  evaluate event db = and_then (build_request h.outside faults event db) judge

  -- The form of the event that reaches the ledgers.
  unfoldable pub stored_form : Result Adjudicated → Event → Event
  stored_form (err e) event = redact_file_content h.sha256 event
  stored_form (ok a) event = elim a.decision [
    | Decision.allow ↦ event
    | _ ↦ redact_file_content h.sha256 event
  ]

  -- The event that records the verdict.
  unfoldable pub verdict_event : Fresh → Event → Adjudicated → Event
  unfolding new_event with_actor with_causality caused_by default_causality
  verdict_event fresh event a =
      with_causality (caused_by event.event_id (default_causality fresh.correlation_id)) (
        with_actor (record { id = codes "cedar"; actor_type = ActorType.policy })
          (new_event fresh event.agent event.trajectory_id (control (adjudicated a))))

  -- What follows the first `persist`: the adjudication error is reported before a storage error,
  -- and the trajectory entity is read, for the log, before the verdict is persisted.
  unfoldable pub finish : Fresh → Event → Result Adjudicated → Outcome Unit → Outcome Adjudicated
  unfolding get persist
  finish fresh event (err e) (persisted, db) = (err e, db)
  finish fresh event (ok a) (err e, db) = (err e, db)
  finish fresh event (ok a) (ok _, db) =
      and_then (get faults (euid (codes "Trajectory") event.trajectory_id) db) (λ _ db1.
        and_then (persist faults (verdict_event fresh event a) db1) (λ _ db2. (ok a, db2)))

  unfoldable pub after_evaluation : Fresh → Event → Outcome Adjudicated → Outcome Adjudicated
  unfolding finish stored_form
  after_evaluation fresh event (outcome, db) =
      let stored = stored_form outcome event in
      finish fresh stored outcome (persist faults stored db)

  unfoldable pub start_trajectory : Control → Event → Db → Outcome Unit
  unfolding upsert
  start_trajectory (started s) event db =
      upsert faults (into_entity (new_trajectory event.trajectory_id)) db
  start_trajectory _ event db = (ok tt, db)

  unfoldable pub record_control : Control → Event → Db → Outcome Adjudicated
  unfolding start_trajectory persist
  record_control c event db = and_then (persist faults event db) (λ _ db1.
      and_then (start_trajectory c event db1) (λ _ db2. (ok (new_adjudicated Decision.allow), db2)))

  unfoldable pub adjudicate_event : Fresh → Event → Db → Outcome Adjudicated
  unfolding record_control after_evaluation evaluate ensure_agent_entity
  adjudicate_event fresh event db =
      and_then (ensure_agent_entity faults event.agent.id db) (λ _ db1. elim event.event [
        | control c ↦ record_control c event db1
        | _ ↦ after_evaluation fresh event (evaluate event db1)
      ])
