-- ===== src/Cedar/Harness/Lifecycle.antt =====
-- Lifecycle records (crates/policy/cedar/src/lib.rs): they are stored as they come, without a
-- request, and a `Started` record writes a new trajectory entity.
use sondera_coding_agent_hoo.Prelude.{
  List, [], ◌∷◌, ◌≡◌, refl, sym, ◌∙◌, inl, inr, Option-cases, subst, ap,
}
use sondera_coding_agent_hoo.Prelude.Text.{Text}
use sondera_coding_agent_hoo.Types.Policy.{Decision}
use sondera_coding_agent_hoo.Types.Control.{Adjudicated, Started, started, new_adjudicated}
use sondera_coding_agent_hoo.Types.Event.{
  Event, Fresh, TrajectoryEvent, action, observation, control, state,
}
use sondera_coding_agent_hoo.Cedar.Entity.{
  Entity, new_trajectory, into_entity, from_entity-into_entity, with_attr,
}
use sondera_coding_agent_hoo.Cedar.Store.{
  Db, Faults, Outcome, ok, err, and_then, attempt, put_entity, upsert, upsert_entity, persist,
  ensure_agent_entity,
}
use sondera_coding_agent_hoo.Cedar.Store.Laws.{
  Quiet, Quiet-upsert, Quiet-ensure_agent_entity, find-put_same,
}
use sondera_coding_agent_hoo.Cedar.Store.Kept.{trajectory_at, trajectory_or}
use sondera_coding_agent_hoo.Cedar.Harness.{
  Harness, evaluate, after_evaluation, record_control, start_trajectory, adjudicate_event,
}
use sondera_coding_agent_hoo.Cedar.Harness.Success.{Appends, Appends-after, persist_ok, no_value}

-- What a `Started` record leaves: the verdict Allow, the record in both ledgers, and a trajectory
-- as new under its id.
pub record Begun (event : Event) (a : Adjudicated) (db db' : Db) : Type 0 where
  pub verdict : a ≡ new_adjudicated Decision.allow
  pub ledgers : Appends (event ∷ []) db db'
  pub trajectory : trajectory_at db' event.trajectory_id ≡ new_trajectory event.trajectory_id

Appends-Quiet : {a b c : Db} (es : List Event) → Appends es a b → Quiet b c → Appends es a c
Appends-Quiet es h q = record { events = q.events ∙ h.events; file = q.file ∙ h.file }

put_new :
    (db : Db) (id : Text)
    → trajectory_at
        (record db { entities = put_entity db.entities (into_entity (new_trajectory id)) })
        id
      ≡ new_trajectory id
unfolding into_entity with_attr new_trajectory
put_new db id =
    ap (λ o. trajectory_or id o) (find-put_same db.entities (into_entity (new_trajectory id)))
    ∙ from_entity-into_entity (new_trajectory id)

module _ (faults : Faults) (event : Event) (a : Adjudicated) (db : Db) where
  abbrev allowed : Db → Outcome Adjudicated
  allowed db1 = (ok (new_adjudicated Decision.allow), db1)

  abbrev fresh_entity : Entity
  fresh_entity = into_entity (new_trajectory event.trajectory_id)

  upserted :
      (db1 : Db)
      → (upsert faults fresh_entity db1).0 ≡ ok tt
      → trajectory_at (upsert faults fresh_entity db1).1 event.trajectory_id
        ≡ new_trajectory event.trajectory_id
  unfolding upsert
  upserted db1 = elim (Option-cases (faults (upsert_entity fresh_entity.uid) db1)) [
    | inr (x, f) ↦ rw (f, upsert, attempt) (λ h. cc)
    | inl f ↦ rw (f, upsert, attempt) (λ h. put_new db1 event.trajectory_id)
  ]

  inner : ok (new_adjudicated Decision.allow) ≡ ok a → a ≡ new_adjudicated Decision.allow
  inner k = cc

  after_upsert :
      (db1 : Db) (o : Outcome Unit)
      → Appends (event ∷ []) db db1
      → Quiet db1 o.1
      → (o.0 ≡ ok tt → trajectory_at o.1 event.trajectory_id ≡ new_trajectory event.trajectory_id)
      → (and_then o (λ _ db2. allowed db2)).0 ≡ ok a
      → Begun event a db (and_then o (λ _ db2. allowed db2)).1
  after_upsert db1 (err e, db2) l q t k = absurd (no_value faults k)
  after_upsert db1 (ok u, db2) l q t k = record {
    verdict = inner k;
    ledgers = Appends-Quiet (event ∷ []) l q;
    trajectory = t refl;
  }

  after_persist :
      (db1 : Db) (o : Outcome Unit)
      → Quiet db db1
      → (o.0 ≡ ok tt → Appends (event ∷ []) db1 o.1)
      → (and_then o (λ _ db2. and_then (upsert faults fresh_entity db2) (λ _ db3. allowed db3))).0
        ≡ ok a
      → Begun event a db
          (and_then o (λ _ db2. and_then (upsert faults fresh_entity db2) (λ _ db3. allowed db3))).1
  after_persist db1 (err e, db2) q l k = absurd (no_value faults k)
  after_persist db1 (ok u, db2) q l k =
      after_upsert db2 (upsert faults fresh_entity db2) (Appends-after (event ∷ []) q (l refl))
        (Quiet-upsert faults fresh_entity db2) (upserted db2) k

  module _ (h : Harness) (fresh : Fresh) where
    abbrev dispatched : TrajectoryEvent → Outcome Unit → Outcome Adjudicated
    dispatched payload o = and_then o (λ _ db1. elim payload as (λ x. Outcome Adjudicated) [
      | control c ↦ record_control h faults c event db1
      | action x ↦ after_evaluation h faults fresh event (evaluate h faults event db1)
      | observation x ↦ after_evaluation h faults fresh event (evaluate h faults event db1)
      | state x ↦ after_evaluation h faults fresh event (evaluate h faults event db1)
    ])

    dispatched_started :
        (s : Started) (o : Outcome Unit)
        → Quiet db o.1
        → (dispatched (control (started s)) o).0 ≡ ok a
        → Begun event a db (dispatched (control (started s)) o).1
    unfolding record_control start_trajectory
    dispatched_started s (err e, db1) q k = absurd (no_value faults k)
    dispatched_started s (ok u, db1) q k =
        after_persist db1 (persist faults event db1) q (persist_ok faults event db1) k

-- A `Started` record begins its trajectory anew: where its adjudication returns, the verdict is
-- Allow, both ledgers gained just this record as it came, and the trajectory stored under its id
-- has no step and the label Public, whatever it had before.
pub adjudicate_event_started :
    (h : Harness) (faults : Faults) (fresh : Fresh) (event : Event) (db : Db) (s : Started)
    (a : Adjudicated)
    → event.event ≡ control (started s)
    → (adjudicate_event h faults fresh event db).0 ≡ ok a
    → Begun event a db (adjudicate_event h faults fresh event db).1
unfolding adjudicate_event
adjudicate_event_started h faults fresh event db s a e =
    subst
      (λ p.
        (dispatched faults event a db h fresh p (ensure_agent_entity faults event.agent.id db)).0
          ≡ ok a
        → Begun event a db
            (dispatched faults event a db h fresh p
              (ensure_agent_entity faults event.agent.id db)).1)
      (sym e)
      (dispatched_started faults event a db h fresh s (ensure_agent_entity faults event.agent.id db)
        (Quiet-ensure_agent_entity faults event.agent.id db))
