-- ===== src/Cedar/Request/Marks.antt =====
-- The label that `build_request` leaves the trajectory of its event with
-- (crates/policy/cedar/src/transform.rs).
use sondera_coding_agent_hoo.Prelude.{ℕ, ◌≡◌, refl, sym, ◌∙◌, ap, subst, inl, inr}
use sondera_coding_agent_hoo.Prelude.Text.{codes}
use sondera_coding_agent_hoo.Types.Event.{Event}
use sondera_coding_agent_hoo.Guardrails.Label.{level}
use sondera_coding_agent_hoo.Cedar.Entity.{into_entity, euid}
use sondera_coding_agent_hoo.Cedar.Store.{Db, Faults, Outcome, ok, and_then, find_entity}
use sondera_coding_agent_hoo.Cedar.Store.Kept.{IsKept, trajectory_at, trajectory_or}
use sondera_coding_agent_hoo.Cedar.Request.{Outside, Request, trajectory_uid}
use sondera_coding_agent_hoo.Cedar.Request.Laws.{uid_of-into_entity}
use sondera_coding_agent_hoo.Cedar.Request.Targets.Marked.{
  marking_content, level_after, Stored, Post, Post-then, Post-done, Post-target_of, Stored-write,
}
use sondera_coding_agent_hoo.Cedar.Request.Build.{build_request}
use sondera_coding_agent_hoo.Cedar.Request.Steps.{
  FailsOr, wrote, count_cases, after_count, no_request, counted, counted_id,
}

module _ (outside : Outside) (faults : Faults) (event : Event) where
  abbrev marked_after : Db → ℕ
  marked_after db =
      level_after outside faults event (marking_content outside event.event)
        (level (trajectory_at db event.trajectory_id).label)

  level_of :
      (n : ℕ) (db : Db) → Stored event n db → level (trajectory_at db event.trajectory_id).label ≡ n
  level_of n db s = ap (λ o. level (trajectory_or event.trajectory_id o).label) s.found ∙ s.at_level

  Post-after_count :
      (n : ℕ) (db : Db)
      → Post event n
          (level_after outside faults event (marking_content outside event.event) n)
          db
          (after_count outside faults event tt db)
  Post-after_count n db =
      let m = level_after outside faults event (marking_content outside event.event) n in
      Post-then event n m m db _ _ (Post-target_of outside faults event event.event n db)
        (λ _ db1. Post-done event m db1 _)

  Stored-count :
      (db : Db)
      → IsKept db.entities
      → Stored event
          (level (trajectory_at db event.trajectory_id).label)
          (wrote faults db (
            into_entity
              (counted event.trajectory_id (find_entity db.entities (trajectory_uid event))))).1
  Stored-count db kept =
      let found = find_entity db.entities (trajectory_uid event) in
      let t = counted event.trajectory_id found in
      Stored-write outside faults event t _ db
        (uid_of-into_entity t
          ∙ ap (λ i. euid (codes "Trajectory") i)
              (counted_id db event.trajectory_id found refl kept))
        refl kept

  marked_by :
      (db : Db) (r : Request) (o : Outcome Unit)
      → IsKept db.entities
      → FailsOr o (
          wrote faults db (
            into_entity
              (counted event.trajectory_id (find_entity db.entities (trajectory_uid event)))))
      → (and_then o (after_count outside faults event)).0 ≡ ok r
      → level
          (trajectory_at
            (and_then o (after_count outside faults event)).1
            event.trajectory_id).label
        ≡ marked_after db
  marked_by db r o kept (inl (x, h)) ready = absurd (no_request outside faults event o x r h ready)
  marked_by db r o kept (inr h) ready =
      let k = after_count outside faults event in
      let w = wrote faults db (
        into_entity
          (counted event.trajectory_id (find_entity db.entities (trajectory_uid event)))) in
      subst
        (λ p. level (trajectory_at (and_then p k).1 event.trajectory_id).label ≡ marked_after db)
        (sym h)
        (level_of (marked_after db) (k tt w.1).1 (
          Post-after_count (level (trajectory_at db event.trajectory_id).label) w.1
            (Stored-count db kept) r (subst (λ p. (and_then p k).0 ≡ ok r) h ready)))

-- What marks a trajectory: where a request is built for an event, in a store that keeps each entity
-- under its own id, the label of the event's trajectory is the higher one of what it was and of the
-- label that the classifier gives to the content of the event. A shell command and a web fetch have
-- no such content: they leave the label as it was, whatever the classifier says of them.
pub build_request_marks :
    (outside : Outside) (faults : Faults) (event : Event) (db : Db) (r : Request)
    → IsKept db.entities
    → (build_request outside faults event db).0 ≡ ok r
    → level (trajectory_at (build_request outside faults event db).1 event.trajectory_id).label
      ≡ level_after outside faults event
          (marking_content outside event.event)
          (level (trajectory_at db event.trajectory_id).label)
unfolding build_request
build_request_marks outside faults event db r kept =
    marked_by outside faults event db r _ kept (count_cases outside faults event db)
