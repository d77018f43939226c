-- ===== src/Cedar/Request/Laws.antt =====
-- What building a request does to the store (crates/policy/cedar/src/transform.rs).
use sondera_coding_agent_hoo.Prelude.{
  Bool, true, false, Option, none, some, ◌≡◌, refl, sym, ◌∙◌, ap, leb, arith, subst,
}
use sondera_coding_agent_hoo.Prelude.Text.{Text, codes}
use sondera_coding_agent_hoo.Types.Event.{Event}
use sondera_coding_agent_hoo.Guardrails.Label.{Label, level}
use sondera_coding_agent_hoo.Cedar.Entity.{
  Entity, Trajectory, uid_eq, euid, from_entity, into_entity, from_entity-into_entity, with_attr,
}
use sondera_coding_agent_hoo.Cedar.Store.{Db, Faults, find_entity, upsert, update_entity}
use sondera_coding_agent_hoo.Cedar.Store.Laws.{
  Quiet, Quiet-refl, Quiet-trans, Quiet-then, Quiet-upsert, Quiet-update_entity, uid_eq→eq,
}
use sondera_coding_agent_hoo.Cedar.Store.Kept.{
  IsKept, find-IsKept, trajectory_or, trajectory_at, Raised, Raised-refl, Moves, Moves-refl,
  Moves-upsert, Moves-update_entity,
}
use sondera_coding_agent_hoo.Cedar.Request.{
  Outside, raised, raise_label, count_step, trajectory_uid,
}
use sondera_coding_agent_hoo.Cedar.Request.Targets.{mark_trajectory_label, target_of}
use sondera_coding_agent_hoo.Cedar.Request.Targets.Along.{Holds, along_target_of}
use sondera_coding_agent_hoo.Cedar.Request.Build.{build_request}

abbrev pub Lifts : Text → Trajectory → Trajectory → Type 0
Lifts id a b = Raised a b

Lifts-refl : (id : Text) (t : Trajectory) → Lifts id t t
Lifts-refl id t = Raised-refl t

Raised-trans : {a b c : Trajectory} → Raised a b → Raised b c → Raised a c
Raised-trans h k = record {
  label = ground (arith, h.label, k.label);
  step_count = k.step_count ∙ h.step_count;
}

Lifts-trans : (a b c : Db) → Moves Lifts a b → Moves Lifts b c → Moves Lifts a c
Lifts-trans a b c h k = record {
  moved = λ kept.
      let first = h.moved kept in
      let second = k.moved first.0 in (second.0, λ id. Raised-trans (first.1 id) (second.1 id));
}

pub uid_of-into_entity :
    (t : Trajectory) → (into_entity t).uid ≡ euid (codes "Trajectory") t.trajectory_id
unfolding into_entity with_attr
uid_of-into_entity t = refl

-- The entity of a trajectory stands under the id of one trajectory only.
same_id :
    (a b : Text) → uid_eq (euid (codes "Trajectory") a) (euid (codes "Trajectory") b) ≡ true → a ≡ b
unfolding euid
same_id a b h =
    ap (λ u. u.id) (uid_eq→eq (euid (codes "Trajectory") a) (euid (codes "Trajectory") b) h)

-- The closure of `update_entity` returned the entity of `t`, whose id is `tid`: enough is that `Q`
-- holds between the trajectory under `tid` and `t`.
pub Moves-write :
    (Q : Text → Trajectory → Trajectory → Type 0) (same : (id : Text) (t : Trajectory) → Q id t t)
    (faults : Faults) (db : Db) (tid : Text) (t : Trajectory)
    → (IsKept db.entities → (t.trajectory_id ≡ tid) × Q tid (trajectory_at db tid) t)
    → Moves Q db (upsert faults (into_entity t) db).1
Moves-write Q same faults db tid t h = Moves-upsert Q same faults (into_entity t) db (λ kept id e.
    let (f, q) = h kept in
    let at : tid ≡ id =
      sym f
      ∙ same_id t.trajectory_id id
          (subst (λ u. uid_eq u (euid (codes "Trajectory") id) ≡ true) (uid_of-into_entity t) e) in
    subst (λ x. Q id (trajectory_at db id) x) (sym (from_entity-into_entity t))
      (subst (λ i. Q i (trajectory_at db i) t) at q))

-- An entity found under a trajectory's id.
pub found_id :
    (db : Db) (tid : Text) (d : Entity)
    → find_entity db.entities (euid (codes "Trajectory") tid) ≡ some d
    → IsKept db.entities
    → (from_entity d).trajectory_id ≡ tid
unfolding from_entity euid
found_id db tid d e kept =
    ap (λ u. u.id) (find-IsKept db.entities (euid (codes "Trajectory") tid) d kept e)

raise_write :
    (faults : Faults) (label : Label) (db : Db) (tid : Text) (found : Option Entity) (e : Entity)
    → find_entity db.entities (euid (codes "Trajectory") tid) ≡ found
    → raise_label label found ≡ some e
    → Moves Lifts db (upsert faults e db).1
unfolding raise_label raised
raise_write faults label db tid none e f h = cc
raise_write faults label db tid (some d) e f h =
    raised_write (leb (level label) (level (from_entity d).label)) refl h
  where
    t : Trajectory
    t = record (from_entity d) { label = label }

    injected : some (into_entity t) ≡ some e → into_entity t ≡ e
    injected h = cc

    kept_write :
        leb (level label) (level (from_entity d).label) ≡ false
        → Moves Lifts db (upsert faults (into_entity t) db).1
    kept_write b = Moves-write Lifts Lifts-refl faults db tid t (λ kept. (
      found_id db tid d f kept,
      subst (λ o. Raised (trajectory_or tid o) t) (sym f)
          (record { label = ground arith; step_count = refl }),
    ))

    raised_write :
        (b : Bool)
        → leb (level label) (level (from_entity d).label) ≡ b
        → raised label d ≡ some e
        → Moves Lifts db (upsert faults e db).1
    raised_write true b = rw (b, raised) (λ h. cc)
    raised_write false b =
        rw (b, raised)
          (λ h. subst (λ x. Moves Lifts db (upsert faults x db).1) (injected h) (kept_write b))

module _ (outside : Outside) (faults : Faults) (event : Event) where
  Lifts-mark :
      (label : Label) (db : Db)
      → Moves Lifts db (mark_trajectory_label outside faults event label db).1
  unfolding mark_trajectory_label
  Lifts-mark label db =
      Moves-update_entity Lifts Lifts-refl faults (trajectory_uid event) (raise_label label) db
        (λ e h. raise_write faults label db event.trajectory_id _ e refl h)

  not_other : {A : Type 0} (b : Bool) → b ≡ true → b ≡ false → A
  not_other b h k = cc

  pub Lifts-Holds : Holds outside faults event (Moves Lifts)
  Lifts-Holds = record {
    same = Moves-refl Lifts Lifts-refl;
    trans = Lifts-trans;
    marks = Lifts-mark;
    writes = λ e db other.
        Moves-upsert Lifts Lifts-refl faults e db (λ kept id h. not_other _ h (other id));
  }

  Quiet-Holds : Holds outside faults event Quiet
  unfolding mark_trajectory_label
  Quiet-Holds = record {
    same = Quiet-refl;
    trans = λ a b c h k. Quiet-trans h k;
    marks = λ label db. Quiet-update_entity faults (trajectory_uid event) (raise_label label) db;
    writes = λ e db other. Quiet-upsert faults e db;
  }

  -- Building a request writes to neither ledger, for any event and whichever access fails.
  pub Quiet-build_request : (db : Db) → Quiet db (build_request outside faults event db).1
  unfolding build_request
  Quiet-build_request db =
      Quiet-then db
        (update_entity faults (trajectory_uid event) (count_step event.trajectory_id) db) _
        (Quiet-update_entity faults (trajectory_uid event) (count_step event.trajectory_id) db)
        (λ _ db1.
          Quiet-then db1 (target_of outside faults event event.event db1) _
            (along_target_of outside faults event Quiet Quiet-Holds event.event db1)
            (λ target db2. Quiet-refl db2))
