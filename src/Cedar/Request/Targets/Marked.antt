-- ===== src/Cedar/Request/Targets/Marked.antt =====
-- The label that each arm of `build_request` leaves the trajectory with
-- (crates/policy/cedar/src/transform.rs).
use sondera_coding_agent_hoo.Prelude.{
  ℕ, Bool, true, false, Option, none, some, if◌then◌else◌, leb, ◌∷◌, ◌++◌, ◌≡◌, refl, ◌∙◌, ap,
  subst, arith, Option-cases, inl, inr,
}
use sondera_coding_agent_hoo.Prelude.Text.{Text, codes, is_empty, text_eq}
use sondera_coding_agent_hoo.Types.Json.{as_str}
use sondera_coding_agent_hoo.Types.Action.{
  FileOperation, tool_call, shell_command, web_fetch, file_operation,
}
use sondera_coding_agent_hoo.Types.Observation.{
  Prompt, FileOperationResult, thought_had, prompt_shown, tool_output, shell_command_output,
  web_fetch_output, file_operation_result,
}
use sondera_coding_agent_hoo.Types.Event.{
  Event, TrajectoryEvent, action, observation, control, state,
}
use sondera_coding_agent_hoo.Guardrails.Label.{Label, level}
use sondera_coding_agent_hoo.Cedar.Entity.{
  Entity, Trajectory, euid, uid_eq, with_attr, parent_uid, from_entity, into_entity,
  from_entity-into_entity,
}
use sondera_coding_agent_hoo.Cedar.Store.{
  Db, Faults, Outcome, ok, err, and_then, attempt, get, upsert, update_entity, find_entity,
  put_entity, get_entity, upsert_entity,
}
use sondera_coding_agent_hoo.Cedar.Store.Laws.{find-put_same, find-put_other}
use sondera_coding_agent_hoo.Cedar.Store.Kept.{IsKept, put-IsKept, find-IsKept}
use sondera_coding_agent_hoo.Cedar.Request.{
  Outside, Target, or_empty, scannable, raise_label, raised, trajectory_uid,
}
use sondera_coding_agent_hoo.Cedar.Request.Targets.{
  mark_trajectory_label, label_of, marked, labelled_file, for_prompt, for_file_operation,
  for_file_result, target_of, for_tool_call, for_shell_command, for_web_fetch, for_shell_output,
  for_web_output, for_tool_output,
}

abbrev pub higher : ℕ → ℕ → ℕ
higher a b = if leb a b then b else a

-- The content of a payload whose label marks the trajectory.
abbrev pub marking_content : Outside → TrajectoryEvent → Option Text
marking_content outside (observation (prompt_shown p)) = some p.content
marking_content outside (action (tool_call tc)) =
    some (tc.tool ++ (b'\n' ∷ outside.json_text tc.arguments))
marking_content outside (action (file_operation fo)) = some (scannable fo)
marking_content outside (observation (shell_command_output sco)) =
    some (sco.stdout ++ (b'\n' ∷ sco.stderr))
marking_content outside (observation (web_fetch_output wfo)) = some wfo.result
marking_content outside (observation (file_operation_result fo)) = some (or_empty fo.content)
marking_content outside (observation (tool_output out)) =
    some (elim (as_str out.output) [ some s ↦ s | none ↦ outside.json_text out.output ])
marking_content outside _ = none

-- The store is keyed and holds the trajectory of the event, with a label of this level.
pub record Stored (event : Event) (n : ℕ) (db : Db) : Type 0 where
  pub kept : IsKept db.entities
  pub entity : Entity
  pub found : find_entity db.entities (trajectory_uid event) ≡ some entity
  pub at_level : level (from_entity entity).label ≡ n

-- Where the outcome is a result, the level was `n` before and is `m` after it.
abbrev pub Post : {A : Type 0} → Event → ℕ → ℕ → Db → Outcome A → Type 0
Post {A = A} event n m db o = Stored event n db → (a : A) → o.0 ≡ ok a → Stored event m o.1

pub Post-then :
    {A B : Type 0} (event : Event) (n m l : ℕ) (db : Db) (o : Outcome A) (k : A → Db → Outcome B)
    → Post event n m db o
    → ((a : A) (db1 : Db) → Post event m l db1 (k a db1))
    → Post event n l db (and_then o k)
Post-then event n m l db (ok a, db1) k p q s b h = q a db1 (p s a refl) b h
Post-then event n m l db (err e, db1) k p q s b h = cc

pub Post-done :
    {A : Type 0} (event : Event) (n : ℕ) (db : Db) (a : A) → Post event n n db (ok a, db)
Post-done event n db a s b h = s

-- A write of another entity.
Post-upsert :
    (event : Event) (n : ℕ) (faults : Faults) (e : Entity) (db : Db)
    → uid_eq e.uid (trajectory_uid event) ≡ false
    → Post event n n db (upsert faults e db)
unfolding upsert
Post-upsert event n faults e db other s a = elim (Option-cases (faults (upsert_entity e.uid) db)) [
  | inl h ↦
      rw (h, upsert, attempt)
        (λ _. record {
          kept = put-IsKept db.entities e s.kept;
          entity = s.entity;
          found = find-put_other db.entities e (trajectory_uid event) other ∙ s.found;
          at_level = s.at_level;
        })
  | inr (x, h) ↦ rw (h, upsert, attempt) (λ k. cc)
]

module _ (outside : Outside) (faults : Faults) (event : Event) where
  -- The entity of a trajectory with the id of the event's is written.
  pub Stored-write :
      (t : Trajectory) (n : ℕ) (db : Db)
      → (into_entity t).uid ≡ trajectory_uid event
      → level t.label ≡ n
      → IsKept db.entities
      → Stored event n (record db { entities = put_entity db.entities (into_entity t) })
  Stored-write t n db u l k = record {
    kept = put-IsKept db.entities (into_entity t) k;
    entity = into_entity t;
    found =
        subst (λ x. find_entity (put_entity db.entities (into_entity t)) x ≡ some (into_entity t)) u
          (find-put_same db.entities (into_entity t));
    at_level = ap (λ x. level x.label) (from_entity-into_entity t) ∙ l;
  }

  marked_uid :
      (d : Entity) (label : Label)
      → d.uid ≡ trajectory_uid event
      → (into_entity (record (from_entity d) { label = label })).uid ≡ trajectory_uid event
  unfolding into_entity with_attr from_entity euid
  marked_uid d label h = ap (λ u. euid (codes "Trajectory") u.id) h

  write_raised :
      (label : Label) (n : ℕ) (db : Db) (s : Stored event n db) (b : Bool) (a : Unit {0})
      → leb (level label) (level (from_entity s.entity).label) ≡ b
      → (elim (raised label s.entity) as (λ x. Outcome Unit) [
        | none ↦ (ok tt, db)
        | some e ↦ upsert faults e db
      ]).0
        ≡ ok a
      → Stored event
          (higher (level label) n)
          (elim (raised label s.entity) as (λ x. Outcome Unit) [
            | none ↦ (ok tt, db)
            | some e ↦ upsert faults e db
          ]).1
  unfolding raised upsert
  write_raised label n db s true a b =
      rw (b, raised)
        (λ h. record {
          kept = s.kept;
          entity = s.entity;
          found = s.found;
          at_level =
              s.at_level
              ∙ not_above (level label) n (subst (λ x. leb (level label) x ≡ true) s.at_level b);
        })
    where
      not_above : (x y : ℕ) → leb x y ≡ true → y ≡ higher x y
      not_above x y h = ground arith
  write_raised label n db s false a b =
      let t = record (from_entity s.entity) { label = label } in
      elim (Option-cases (faults (upsert_entity (into_entity t).uid) db)) [
        | inl e ↦
            rw (b, raised)
              (rw (e, upsert, attempt)
                (λ h.
                  Stored-write t (higher (level label) n) db
                    (marked_uid s.entity label
                      (find-IsKept db.entities (trajectory_uid event) s.entity s.kept s.found))
                    (above (level label) n (subst (λ x. leb (level label) x ≡ false) s.at_level b))
                    s.kept))
        | inr (x, e) ↦ rw (b, raised) (rw (e, upsert, attempt) (λ h. cc))
      ]
    where
      above : (x y : ℕ) → leb x y ≡ false → x ≡ higher x y
      above x y h = ground arith

  Post-mark :
      (label : Label) (n : ℕ) (db : Db)
      → Post event n
          (higher (level label) n)
          db
          (mark_trajectory_label outside faults event label db)
  unfolding mark_trajectory_label update_entity get raise_label
  Post-mark label n db s a = elim (Option-cases (faults (get_entity (trajectory_uid event)) db)) [
    | inl e ↦ rw (e, update_entity, get, attempt) (rw s.found (write_raised label n db s _ a refl))
    | inr (x, e) ↦ rw (e, update_entity, get, attempt) (λ h. cc)
  ]

  abbrev pub level_after : Option Text → ℕ → ℕ
  level_after none n = n
  level_after (some content) n = higher (level (label_of outside faults event content)) n

  Post-marked :
      (content : Text) (t : Target) (n : ℕ) (db : Db)
      → Post event n (level_after (some content) n) db (marked outside faults event content t db)
  Post-marked content t n db =
      Post-then event n (level_after (some content) n) (level_after (some content) n) db _ _
        (Post-mark (label_of outside faults event content) n db) (λ _ db1. Post-done event _ db1 t)

  file_other :
      (path content : Text)
      → uid_eq (labelled_file outside faults event path content).uid (trajectory_uid event) ≡ false
  unfolding uid_eq euid with_attr text_eq
  file_other path content = refl

  Post-prompt :
      (p : Prompt) (n : ℕ) (db : Db)
      → Post event n (level_after (some p.content) n) db (for_prompt outside faults event p db)
  unfolding for_prompt uid_eq euid with_attr parent_uid text_eq
  Post-prompt p n db =
      Post-then event n n (level_after (some p.content) n) db _ _
        (Post-upsert event n faults _ db refl) (λ _ db1. Post-marked p.content _ n db1)

  Post-file_operation :
      (fo : FileOperation) (n : ℕ) (db : Db)
      → Post event n
          (level_after (some (scannable fo)) n)
          db
          (for_file_operation outside faults event fo db)
  unfolding for_file_operation
  Post-file_operation fo n db =
      Post-then event n n (level_after (some (scannable fo)) n) db _ _
        (Post-upsert event n faults _ db (file_other fo.path (scannable fo)))
        (λ _ db1. Post-marked (scannable fo) _ n db1)

  Post-if :
      {A : Type 0} (n : ℕ) (b : Bool) (db : Db) (o p : Outcome A)
      → Post event n n db o
      → Post event n n db p
      → Post event n n db (if b then o else p)
  Post-if n true db o p h k = h
  Post-if n false db o p h k = k

  Post-file_result :
      (fo : FileOperationResult) (n : ℕ) (db : Db)
      → Post event n
          (level_after (some (or_empty fo.content)) n)
          db
          (for_file_result outside faults event fo db)
  unfolding for_file_result
  Post-file_result fo n db =
      let m = level_after (some (or_empty fo.content)) n in
      Post-then event n m m db _ _
        (Post-mark (label_of outside faults event (or_empty fo.content)) n db)
        (λ _ db1. Post-if m (is_empty (or_empty fo.path)) db1 _ _ (Post-done event m db1 _) (
          Post-then event m m m db1 _ _
            (Post-upsert event m faults _ db1 (file_other (or_empty fo.path) (or_empty fo.content)))
            (λ _ db2. Post-done event m db2 _)))

  pub Post-target_of :
      (payload : TrajectoryEvent) (n : ℕ) (db : Db)
      → Post event n
          (level_after (marking_content outside payload) n)
          db
          (target_of outside faults event payload db)
  unfolding target_of for_tool_call for_shell_command for_web_fetch for_shell_output for_web_output
      for_tool_output
  Post-target_of (observation (prompt_shown p)) n db = Post-prompt p n db
  Post-target_of (action (tool_call tc)) n db = Post-marked _ _ n db
  Post-target_of (action (shell_command sc)) n db = Post-done event n db _
  Post-target_of (action (web_fetch wf)) n db = Post-done event n db _
  Post-target_of (action (file_operation fo)) n db = Post-file_operation fo n db
  Post-target_of (observation (shell_command_output sco)) n db = Post-marked _ _ n db
  Post-target_of (observation (web_fetch_output wfo)) n db = Post-marked _ _ n db
  Post-target_of (observation (file_operation_result fo)) n db = Post-file_result fo n db
  Post-target_of (observation (tool_output out)) n db = Post-marked _ _ n db
  Post-target_of (observation (thought_had t)) n db = λ s a h. cc
  Post-target_of (control c) n db = λ s a h. cc
  Post-target_of (state s) n db = λ s a h. cc
