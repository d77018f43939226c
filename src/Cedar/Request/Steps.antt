-- ===== src/Cedar/Request/Steps.antt =====
-- The label and the step count of a trajectory over one request
-- (crates/policy/cedar/src/transform.rs).
use sondera_coding_agent_hoo.Prelude.{
  ℕ, Option, none, some, ◌≡◌, refl, sym, ◌∙◌, ap, ◌≤◌, arith, ◌⊎◌, Option-cases, inl, inr, subst,
}
use sondera_coding_agent_hoo.Prelude.Text.{Text, codes}
use sondera_coding_agent_hoo.Types.Event.{Event}
use sondera_coding_agent_hoo.Guardrails.Label.{level}
use sondera_coding_agent_hoo.Cedar.Entity.{
  Entity, Trajectory, euid, into_entity, increment, new_trajectory, from_entity-into_entity,
}
use sondera_coding_agent_hoo.Cedar.Store.{
  Db, Faults, Outcome, ok, err, and_then, attempt, find_entity, put_entity, get, upsert,
  update_entity, get_entity, upsert_entity,
}
use sondera_coding_agent_hoo.Cedar.Context.{fields}
use sondera_coding_agent_hoo.Cedar.Store.Laws.{along, find-put_same}
use sondera_coding_agent_hoo.Cedar.Store.Kept.{
  IsKept, put-IsKept, trajectory_or, trajectory_at, Moves, Moves-refl, Moves-update_entity,
}
use sondera_coding_agent_hoo.Cedar.Request.{Outside, Request, count_step, trajectory_uid}
use sondera_coding_agent_hoo.Cedar.Request.Targets.{target_of}
use sondera_coding_agent_hoo.Cedar.Request.Targets.Along.{along_target_of}
use sondera_coding_agent_hoo.Cedar.Request.Laws.{
  Lifts, Lifts-Holds, Moves-write, found_id, uid_of-into_entity,
}
use sondera_coding_agent_hoo.Cedar.Request.Build.{build_request}

-- The label does not fall; the count may change.
abbrev KeepsLabel : Text → Trajectory → Trajectory → Type 0
KeepsLabel id a b = level a.label ≤ level b.label

KeepsLabel-refl : (id : Text) (t : Trajectory) → KeepsLabel id t t
KeepsLabel-refl id t = ground arith

KeepsLabel-trans : (a b c : Db) → Moves KeepsLabel a b → Moves KeepsLabel b c → Moves KeepsLabel a c
KeepsLabel-trans a b c h k = record {
  moved = λ kept.
      let first = h.moved kept in
      let second = k.moved first.0 in (second.0, λ id. le_trans (first.1 id) (second.1 id));
}
  where
    le_trans : {x y z : ℕ} → x ≤ y → y ≤ z → x ≤ z
    le_trans h k = ground arith

weaker : (a b : Db) → Moves Lifts a b → Moves KeepsLabel a b
weaker a b h = record { moved = λ kept. let m = h.moved kept in (m.0, λ id. (m.1 id).label) }

-- The trajectory that one step leaves.
abbrev pub counted : Text → Option Entity → Trajectory
counted id found = record (trajectory_or id found) {
  step_count = increment (trajectory_or id found).step_count;
}

count_step_lem :
    (id : Text) (found : Option Entity)
    → count_step id found ≡ some (into_entity (counted id found))
unfolding count_step
count_step_lem id none = refl
count_step_lem id (some e) = refl

pub counted_id :
    (db : Db) (id : Text) (found : Option Entity)
    → find_entity db.entities (euid (codes "Trajectory") id) ≡ found
    → IsKept db.entities
    → (counted id found).trajectory_id ≡ id
unfolding new_trajectory
counted_id db id none e kept = refl
counted_id db id (some d) e kept = found_id db id d e kept

counted_label :
    (id : Text) (found : Option Entity) → (counted id found).label ≡ (trajectory_or id found).label
counted_label id found = refl

module _ (outside : Outside) (faults : Faults) (event : Event) where
  KeepsLabel-count :
      (db : Db)
      → Moves KeepsLabel db
          (update_entity faults (trajectory_uid event) (count_step event.trajectory_id) db).1
  KeepsLabel-count db =
      Moves-update_entity KeepsLabel KeepsLabel-refl faults (trajectory_uid event)
        (count_step event.trajectory_id) db
        (λ e h.
          let found = find_entity db.entities (trajectory_uid event) in
          subst (λ x. Moves KeepsLabel db (upsert faults x db).1)
            (written (into_entity (counted event.trajectory_id found)) e
              (sym (count_step_lem event.trajectory_id found) ∙ h))
            (Moves-write KeepsLabel KeepsLabel-refl faults db event.trajectory_id
              (counted event.trajectory_id found)
              (λ kept. (counted_id db event.trajectory_id found refl kept, ground arith))))
    where
      written : (a b : Entity) → some a ≡ some b → a ≡ b
      written a b h = cc

  KeepsLabel-build_request :
      (db : Db) → Moves KeepsLabel db (build_request outside faults event db).1
  unfolding build_request
  KeepsLabel-build_request db =
      along (Moves KeepsLabel) KeepsLabel-trans db
        (update_entity faults (trajectory_uid event) (count_step event.trajectory_id) db) _
        (KeepsLabel-count db)
        (λ _ db1.
          along (Moves KeepsLabel) KeepsLabel-trans db1
            (target_of outside faults event event.event db1) _
            (weaker db1 _ (
              along_target_of outside faults event (Moves Lifts) (Lifts-Holds outside faults event)
                event.event db1))
            (λ target db2. Moves-refl KeepsLabel KeepsLabel-refl db2))

-- A label is never lowered: building a request, for any event and whichever access fails, leaves
-- each trajectory with a label at least as high as before, in a store that keeps each entity under
-- its own id; and it leaves such a store.
pub build_request_label :
    (outside : Outside) (faults : Faults) (event : Event) (db : Db)
    → IsKept db.entities
    → IsKept (build_request outside faults event db).1.entities
      × ((id : Text)
          → level (trajectory_at db id).label
            ≤ level (trajectory_at (build_request outside faults event db).1 id).label)
build_request_label outside faults event db kept =
    (KeepsLabel-build_request outside faults event db).moved kept

-- A step fails, or it has just this outcome.
abbrev pub FailsOr : Outcome Unit → Outcome Unit → Type 0
FailsOr o p = ((x : Text) × (o.0 ≡ err x)) ⊎ (o ≡ p)

module _ (faults : Faults) (db : Db) where
  abbrev pub wrote : Entity → Outcome Unit
  wrote e = (ok tt, record db { entities = put_entity db.entities e })

  upsert_cases : (e : Entity) → FailsOr (upsert faults e db) (wrote e)
  unfolding upsert
  upsert_cases e = elim (Option-cases (faults (upsert_entity e.uid) db)) [
    | inl h ↦ rw (h, upsert, attempt) (inr refl)
    | inr (x, h) ↦ rw (h, upsert, attempt) (inl (x, refl))
  ]

  next_cases :
      (next : Option Entity) (e : Entity)
      → next ≡ some e
      → FailsOr
          (elim next as (λ x. Outcome Unit) [ none ↦ (ok tt, db) | some d ↦ upsert faults d db ])
          (wrote e)
  next_cases none e h = cc
  next_cases (some d) e h =
      subst (λ x. FailsOr (upsert faults d db) (wrote x)) (inner d e h) (upsert_cases d)
    where
      inner : (a b : Entity) → some a ≡ some b → a ≡ b
      inner a b h = cc

module _ (outside : Outside) (faults : Faults) (event : Event) where
  -- The outcomes of the update that counts the step.
  pub count_cases :
      (db : Db)
      → FailsOr (update_entity faults (trajectory_uid event) (count_step event.trajectory_id) db) (
          wrote faults db (
            into_entity
              (counted event.trajectory_id (find_entity db.entities (trajectory_uid event)))))
  unfolding update_entity get
  count_cases db = elim (Option-cases (faults (get_entity (trajectory_uid event)) db)) [
    | inr (x, e) ↦ inl (x, rw (e, update_entity, get, attempt) refl)
    | inl e ↦
        rw (e, update_entity, get, attempt)
          (next_cases faults db
            (count_step event.trajectory_id (find_entity db.entities (trajectory_uid event))) _
            (count_step_lem event.trajectory_id _))
  ]

  -- The rest of `build_request` behind the count.
  abbrev pub after_count : Unit {0} → Db → Outcome Request
  after_count _ db1 = and_then (target_of outside faults event event.event db1) (λ target db2. (
    ok (record {
      principal = euid (codes "Agent") event.actor.id;
      action_id = target.action_id;
      resource = target.resource;
      context = fields target.context;
    }),
    db2,
  ))

  Lifts-after_count : (db1 : Db) → Moves Lifts db1 (after_count tt db1).1
  Lifts-after_count db1 =
      along (Moves Lifts) (Lifts-Holds outside faults event).trans db1
        (target_of outside faults event event.event db1) _
        (along_target_of outside faults event (Moves Lifts) (Lifts-Holds outside faults event)
          event.event db1)
        (λ target db2. (Lifts-Holds outside faults event).same db2)

  pub no_request :
      (o : Outcome Unit) (x : Text) (r : Request)
      → o.0 ≡ err x
      → (and_then o after_count).0 ≡ ok r
      → ⊥
  no_request (err y, db1) x r h k = cc
  no_request (ok u, db1) x r h k = cc

  stored_count :
      (db : Db) (t : Trajectory)
      → t.trajectory_id ≡ event.trajectory_id
      → (trajectory_at
          (record db { entities = put_entity db.entities (into_entity t) })
          event.trajectory_id).step_count
        ≡ t.step_count
  stored_count db t e =
      let stored : find_entity (put_entity db.entities (into_entity t)) (trajectory_uid event)
          ≡ some (into_entity t) =
        subst (λ u. find_entity (put_entity db.entities (into_entity t)) u ≡ some (into_entity t))
          (uid_of-into_entity t ∙ ap (λ i. euid (codes "Trajectory") i) e)
          (find-put_same db.entities (into_entity t)) in
      ap (λ o. (trajectory_or event.trajectory_id o).step_count) stored
      ∙ ap (λ x. x.step_count) (from_entity-into_entity t)

  counted_after :
      (db : Db) (r : Request) (o : Outcome Unit)
      → IsKept db.entities
      → FailsOr o (
          wrote faults db (
            into_entity
              (counted event.trajectory_id (find_entity db.entities (trajectory_uid event)))))
      → (and_then o after_count).0 ≡ ok r
      → (trajectory_at (and_then o after_count).1 event.trajectory_id).step_count
        ≡ increment (trajectory_at db event.trajectory_id).step_count
  counted_after db r o kept (inl (x, h)) ready = absurd (no_request o x r h ready)
  counted_after db r o kept (inr h) ready =
      let t = counted event.trajectory_id (find_entity db.entities (trajectory_uid event)) in
      let db1 : Db = record db { entities = put_entity db.entities (into_entity t) } in
      subst
        (λ p.
          (trajectory_at (and_then p after_count).1 event.trajectory_id).step_count
          ≡ increment (trajectory_at db event.trajectory_id).step_count)
        (sym h)
        ((((Lifts-after_count db1).moved (put-IsKept db.entities (into_entity t) kept)).1
            event.trajectory_id).step_count
          ∙ stored_count db t (counted_id db event.trajectory_id _ refl kept))

-- Each request counts one step: where a request is built for an event, in a store that keeps each
-- entity under its own id, the step count of the event's trajectory is the old one plus one (an
-- `i64`, which wraps), and a trajectory that was absent starts from 0.
pub build_request_step :
    (outside : Outside) (faults : Faults) (event : Event) (db : Db) (r : Request)
    → IsKept db.entities
    → (build_request outside faults event db).0 ≡ ok r
    → (trajectory_at (build_request outside faults event db).1 event.trajectory_id).step_count
      ≡ increment (trajectory_at db event.trajectory_id).step_count
unfolding build_request
build_request_step outside faults event db r kept =
    counted_after outside faults event db r _ kept (count_cases outside faults event db)
