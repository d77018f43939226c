-- ===== src/Cedar/Store.antt =====
-- The store that the harness writes to: the entities, and the two ledgers of `persist`
-- (crates/policy/cedar/src/lib.rs; `update_entity` is crates/storage/src/turso/entity.rs).
--
-- The database and the JSONL file are a state that is passed on. Whether an access fails is a
-- parameter: a test of the access and of the state that it finds. An access that fails changes
-- nothing.
pub mod Laws
pub mod Reader
pub mod Kept
use sondera_coding_agent_hoo.Prelude.{
  Bool, true, false, Option, none, some, List, [], ◌∷◌, ◌++◌, if◌then◌else◌,
}
use sondera_coding_agent_hoo.Prelude.Text.{Text, codes}
use sondera_coding_agent_hoo.Types.Event.{Event}
use sondera_coding_agent_hoo.Cedar.Entity.{Uid, Entity, uid_eq, new_entity, euid}

pub record Db : Type 0 where
  pub entities : List (Uid × Entity)
  pub events : List Event
  pub file : List Event

pub data Access : Type 0 where
  get_entity upsert_entity : Uid → Access
  all_entities insert_event append_file : Access

pub data Result (A : Type 0) : Type 0 where
  ok : A → Result A
  err : Text → Result A

-- What a step returns, and the state that it leaves.
abbrev pub Outcome : Type 0 → Type 0
Outcome A = Result A × Db

-- The rest of the function after `?`.
abbrev pub and_then : {A B : Type 0} → Outcome A → (A → Db → Outcome B) → Outcome B
and_then (ok a, db) k = k a db
and_then (err e, db) k = (err e, db)

unfoldable pub find_entity : List (Uid × Entity) → Uid → Option Entity
find_entity [] uid = none
find_entity ((u, e) ∷ rest) uid =
    let later = find_entity rest uid in if uid_eq u uid then some e else later

unfoldable pub put_entity : List (Uid × Entity) → Entity → List (Uid × Entity)
put_entity [] e = (e.uid, e) ∷ []
put_entity ((u, d) ∷ rest) e =
    let later = put_entity rest e in if uid_eq u e.uid then (e.uid, e) ∷ rest else (u, d) ∷ later

abbrev pub Faults : Type 0
Faults = Access → Db → Option Text

module _ (faults : Faults) where
  abbrev pub attempt : {A : Type 0} → Access → Db → A → Db → Outcome A
  attempt access db a after = elim (faults access db) [
    | some e ↦ (err e, db)
    | none ↦ (ok a, after)
  ]

  unfoldable pub get : Uid → Db → Outcome (Option Entity)
  get uid db = attempt (get_entity uid) db (find_entity db.entities uid) db

  unfoldable pub upsert : Entity → Db → Outcome Unit
  upsert e db =
      attempt (upsert_entity e.uid) db tt (record db { entities = put_entity db.entities e })

  -- `update_entity`: the lock makes its read and its write one step.
  unfoldable pub update_entity : Uid → (Option Entity → Option Entity) → Db → Outcome Unit
  unfolding get upsert
  update_entity uid f db =
      and_then (get uid db)
        (λ existing db1. elim (f existing) [ none ↦ (ok tt, db1) | some e ↦ upsert e db1 ])

  -- `persist`: the file first, then the database.
  unfoldable pub persist : Event → Db → Outcome Unit
  persist e db =
      and_then (attempt append_file db tt (record db { file = db.file ++ e ∷ [] }))
        (λ _ db1. attempt insert_event db1 tt (record db1 { events = db1.events ++ e ∷ [] }))

  -- `ensure_agent_entity`.
  unfoldable pub ensure_agent_entity : Text → Db → Outcome Unit
  unfolding get upsert
  ensure_agent_entity id db =
      let agent_uid = euid (codes "Agent") id in
      and_then (get agent_uid db) (λ found db1. elim found [
        | none ↦ upsert (new_entity agent_uid) db1
        | some e ↦ (ok tt, db1)
      ])
