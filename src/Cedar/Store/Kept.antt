-- ===== src/Cedar/Store/Kept.antt =====
-- The trajectories that the store holds (crates/policy/cedar/src/transform.rs and entity.rs): how
-- a write of an entity moves them.
use sondera_coding_agent_hoo.Prelude.{
  true, Option, none, some, List, [], ◌∷◌, ◌≡◌, refl, sym, ◌∙◌, ◌≤◌, arith, Bool-cases,
  Option-cases, inl, inr, subst,
}
use sondera_coding_agent_hoo.Prelude.Text.{Text, codes}
use sondera_coding_agent_hoo.Guardrails.Label.{level}
use sondera_coding_agent_hoo.Cedar.Entity.{
  Uid, Entity, Trajectory, uid_eq, euid, from_entity, new_trajectory,
}
use sondera_coding_agent_hoo.Cedar.Store.{
  Db, Faults, Outcome, attempt, find_entity, put_entity, upsert, update_entity, get_entity,
  upsert_entity, get, ok,
}
use sondera_coding_agent_hoo.Cedar.Store.Laws.{
  uid_eq→eq, find-put_same, find-put_other, along_attempt,
}

-- Each entity stands under its own id.
abbrev pub IsKept : List (Uid × Entity) → Type 0
IsKept [] = Unit
IsKept ((u, e) ∷ m) = (e.uid ≡ u) × IsKept m

pub find-IsKept :
    (m : List (Uid × Entity)) (uid : Uid) (e : Entity)
    → IsKept m
    → find_entity m uid ≡ some e
    → e.uid ≡ uid
unfolding find_entity
find-IsKept [] uid e k = λ h. cc
find-IsKept ((u, d) ∷ m) uid e k = elim (Bool-cases (uid_eq u uid)) [
  | inl b ↦ rw b (λ h. here h (k.0 ∙ uid_eq→eq u uid b))
  | inr b ↦ rw b (λ h. find-IsKept m uid e k.1 h)
]
  where
    here : some d ≡ some e → d.uid ≡ uid → e.uid ≡ uid
    here h f = cc

pub put-IsKept : (m : List (Uid × Entity)) (e : Entity) → IsKept m → IsKept (put_entity m e)
unfolding put_entity
put-IsKept [] e k = (refl, tt)
put-IsKept ((u, d) ∷ m) e k = elim (Bool-cases (uid_eq u e.uid)) [
  | inl b ↦ rw b (refl, k.1)
  | inr b ↦ rw b (k.0, put-IsKept m e k.1)
]

abbrev pub trajectory_or : Text → Option Entity → Trajectory
trajectory_or id none = new_trajectory id
trajectory_or id (some e) = from_entity e

-- The trajectory under an id; one that is absent counts as new.
abbrev pub trajectory_at : Db → Text → Trajectory
trajectory_at db id = trajectory_or id (find_entity db.entities (euid (codes "Trajectory") id))

-- No label falls and no step is counted.
pub record Raised (a b : Trajectory) : Type 0 where
  pub label : level a.label ≤ level b.label
  pub step_count : b.step_count ≡ a.step_count

pub Raised-refl : (a : Trajectory) → Raised a a
Raised-refl a = record { label = ground arith; step_count = refl }

-- The store stays keyed, and `Q` holds between each trajectory before and after.
pub record Moves (Q : Text → Trajectory → Trajectory → Type 0) (db db' : Db) : Type 0 where
  pub moved :
      IsKept db.entities
      → IsKept db'.entities × ((id : Text) → Q id (trajectory_at db id) (trajectory_at db' id))

module _ (Q : Text → Trajectory → Trajectory → Type 0)
    (same : (id : Text) (t : Trajectory) → Q id t t) where
  pub Moves-refl : (db : Db) → Moves Q db db
  Moves-refl db = record { moved = λ k. (k, λ id. same id _) }

  put_at :
      (db : Db) (e : Entity) (id : Text)
      → (uid_eq e.uid (euid (codes "Trajectory") id) ≡ true
          → Q id (trajectory_at db id) (from_entity e))
      → Q id
          (trajectory_at db id)
          (trajectory_at (record db { entities = put_entity db.entities e }) id)
  put_at db e id h = elim (Bool-cases (uid_eq e.uid (euid (codes "Trajectory") id))) [
    | inl b ↦
        let found : find_entity (put_entity db.entities e) (euid (codes "Trajectory") id) ≡ some e =
          subst (λ u. find_entity (put_entity db.entities e) u ≡ some e)
            (uid_eq→eq e.uid (euid (codes "Trajectory") id) b) (find-put_same db.entities e) in
        subst (λ o. Q id (trajectory_at db id) (trajectory_or id o)) (sym found) (h b)
    | inr b ↦
        subst (λ o. Q id (trajectory_at db id) (trajectory_or id o))
          (sym (find-put_other db.entities e (euid (codes "Trajectory") id) b)) (same id _)
  ]

  module _ (faults : Faults) where
    pub Moves-upsert :
        (e : Entity) (db : Db)
        → (IsKept db.entities
            → (id : Text) → uid_eq e.uid (euid (codes "Trajectory") id) ≡ true
            → Q id (trajectory_at db id) (from_entity e))
        → Moves Q db (upsert faults e db).1
    unfolding upsert
    Moves-upsert e db h =
        along_attempt faults (Moves Q) (upsert_entity e.uid) db tt _ (Moves-refl db)
          (record { moved = λ k. (put-IsKept db.entities e k, λ id. put_at db e id (h k id)) })

    write_next :
        (db : Db) (next : Option Entity)
        → ((e : Entity) → next ≡ some e → Moves Q db (upsert faults e db).1)
        → Moves Q db
            (elim next as (λ x. Outcome Unit) [
              | none ↦ (ok tt, db)
              | some e ↦ upsert faults e db
            ]).1
    write_next db none h = Moves-refl db
    write_next db (some e) h = h e refl

    -- `update_entity` on a trajectory: the entity that the closure returns is written.
    pub Moves-update_entity :
        (uid : Uid) (f : Option Entity → Option Entity) (db : Db)
        → ((e : Entity)
            → f (find_entity db.entities uid) ≡ some e
            → Moves Q db (upsert faults e db).1)
        → Moves Q db (update_entity faults uid f db).1
    unfolding update_entity get
    Moves-update_entity uid f db h = elim (Option-cases (faults (get_entity uid) db)) [
      | inr (x, e) ↦ rw (e, update_entity, get, attempt) (Moves-refl db)
      | inl e ↦
          rw (e, update_entity, get, attempt) (write_next db (f (find_entity db.entities uid)) h)
    ]
