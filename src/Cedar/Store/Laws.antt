-- ===== src/Cedar/Store/Laws.antt =====
-- Laws of the store of crates/policy/cedar/src/lib.rs: what a write leaves, and which steps do not
-- touch the ledgers.
use sondera_coding_agent_hoo.Prelude.{
  Bool, true, false, ◌&&◌, Option, some, List, [], ◌∷◌, if◌then◌else◌, ◌≡◌, refl, ◌∙◌, arith,
  Bool-cases, Option-cases, inl, inr, ap,
}
use sondera_coding_agent_hoo.Prelude.Text.{Text, text_eq, text_eq→eq}
use sondera_coding_agent_hoo.Cedar.Entity.{Uid, Entity, uid_eq, uid_eq_refl}
use sondera_coding_agent_hoo.Cedar.Store.{
  Db, Access, Faults, Outcome, ok, err, and_then, attempt, find_entity, put_entity, get, upsert,
  update_entity, ensure_agent_entity, get_entity, upsert_entity,
}

pub uid_eq→eq : (a b : Uid) → uid_eq a b ≡ true → a ≡ b
unfolding uid_eq
uid_eq→eq a b h =
    let (e, f) = both (text_eq a.type_name b.type_name) (text_eq a.id b.id) h in
    rw (text_eq→eq a.type_name b.type_name e) (rw (text_eq→eq a.id b.id f) refl)
  where
    both : (x y : Bool) → x && y ≡ true → (x ≡ true) × (y ≡ true)
    both x y h = ground arith

pub find-put_same :
    (m : List (Uid × Entity)) (e : Entity) → find_entity (put_entity m e) e.uid ≡ some e
unfolding find_entity put_entity
find-put_same [] e = rw (uid_eq_refl e.uid) refl
find-put_same ((u, d) ∷ m) e = elim (Bool-cases (uid_eq u e.uid)) [
  | inl h ↦ rw h (rw (uid_eq_refl e.uid) refl)
  | inr h ↦ rw h (rw h (find-put_same m e))
]

-- A write under another id is not seen.
pub find-put_other :
    (m : List (Uid × Entity)) (e : Entity) (uid : Uid)
    → uid_eq e.uid uid ≡ false
    → find_entity (put_entity m e) uid ≡ find_entity m uid
unfolding find_entity put_entity
find-put_other [] e uid n = rw n refl
find-put_other ((u, d) ∷ m) e uid n = elim (Bool-cases (uid_eq u e.uid)) [
  | inl h ↦
      let same : uid_eq u uid ≡ false = rw (uid_eq→eq u e.uid h) n in rw h (rw n (rw same refl))
  | inr h ↦ rw h (ap (λ r. if uid_eq u uid then some d else r) (find-put_other m e uid n))
]

-- A step that leaves both ledgers as they are.
pub record Quiet (db db' : Db) : Type 0 where
  pub events : db'.events ≡ db.events
  pub file : db'.file ≡ db.file

pub Quiet-refl : (db : Db) → Quiet db db
Quiet-refl db = record { events = refl; file = refl }

pub Quiet-trans : {a b c : Db} → Quiet a b → Quiet b c → Quiet a c
Quiet-trans h k = record { events = k.events ∙ h.events; file = k.file ∙ h.file }

-- A relation between states that holds along a function passes its `?`.
pub along :
    {A B : Type 0} (R : Db → Db → Type 0)
    → ((a b c : Db) → R a b → R b c → R a c)
    → (db : Db) (o : Outcome A) (k : A → Db → Outcome B) → R db o.1
    → ((a : A) (db1 : Db) → R db1 (k a db1).1)
    → R db (and_then o k).1
along R trans db (ok a, db1) k h next = trans db db1 (k a db1).1 h (next a db1)
along R trans db (err e, db1) k h next = h

pub Quiet-then :
    {A B : Type 0} (db : Db) (o : Outcome A) (k : A → Db → Outcome B)
    → Quiet db o.1
    → ((a : A) (db1 : Db) → Quiet db1 (k a db1).1)
    → Quiet db (and_then o k).1
Quiet-then db o k = along Quiet (λ a b c h k. Quiet-trans h k) db o k

module _ (faults : Faults) where
  pub along_attempt :
      {A : Type 0} (R : Db → Db → Type 0) (access : Access) (db : Db) (a : A) (after : Db)
      → R db db
      → R db after
      → R db (attempt faults access db a after).1
  along_attempt R access db a after h k = elim (Option-cases (faults access db)) [
    | inl e ↦ rw (e, attempt) k
    | inr (f, e) ↦ rw (e, attempt) h
  ]

  pub Quiet-get : (uid : Uid) (db : Db) → Quiet db (get faults uid db).1
  unfolding get
  Quiet-get uid db = along_attempt Quiet (get_entity uid) db _ db (Quiet-refl db) (Quiet-refl db)

  pub Quiet-upsert : (e : Entity) (db : Db) → Quiet db (upsert faults e db).1
  unfolding upsert
  Quiet-upsert e db =
      along_attempt Quiet (upsert_entity e.uid) db tt _ (Quiet-refl db)
        (record { events = refl; file = refl })

  pub Quiet-update_entity :
      (uid : Uid) (f : Option Entity → Option Entity) (db : Db)
      → Quiet db (update_entity faults uid f db).1
  unfolding update_entity
  Quiet-update_entity uid f db =
      Quiet-then db (get faults uid db) _ (Quiet-get uid db) (λ existing db1.
        elim (Option-cases (f existing)) [
          | inl e ↦ rw e (Quiet-refl db1)
          | inr (d, e) ↦ rw e (Quiet-upsert d db1)
        ])

  pub Quiet-ensure_agent_entity :
      (id : Text) (db : Db) → Quiet db (ensure_agent_entity faults id db).1
  unfolding ensure_agent_entity
  Quiet-ensure_agent_entity id db = Quiet-then db (get faults _ db) _ (Quiet-get _ db) (λ found db1.
      elim (Option-cases found) [
        | inl e ↦ rw e (Quiet-upsert _ db1)
        | inr (d, e) ↦ rw e (Quiet-refl db1)
      ])
