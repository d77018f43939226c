-- ===== src/Cedar/Request/Targets/Along.antt =====
-- What every arm of `build_request` keeps (crates/policy/cedar/src/transform.rs): a relation
-- between states that holds along the accesses of the arms holds along the arms.
use sondera_coding_agent_hoo.Prelude.{Bool, true, false, if◌then◌else◌, ◌≡◌, refl}
use sondera_coding_agent_hoo.Prelude.Text.{Text, codes, is_empty, text_eq}
use sondera_coding_agent_hoo.Types.Action.{
  FileOperation, tool_call, shell_command, web_fetch, file_operation,
}
use sondera_coding_agent_hoo.Types.Observation.{
  Prompt, FileOperationResult, thought_had, prompt_shown, tool_output, shell_command_output,
  web_fetch_output, file_operation_result,
}
use sondera_coding_agent_hoo.Types.Event.{
  Event, TrajectoryEvent, action, observation, control, state,
}
use sondera_coding_agent_hoo.Guardrails.Label.{Label}
use sondera_coding_agent_hoo.Cedar.Entity.{Entity, euid, uid_eq, with_attr, parent_uid}
use sondera_coding_agent_hoo.Cedar.Store.{Db, Faults, Outcome, and_then, upsert}
use sondera_coding_agent_hoo.Cedar.Store.Laws.{along}
use sondera_coding_agent_hoo.Cedar.Request.{Outside, Target, or_empty}
use sondera_coding_agent_hoo.Cedar.Request.Targets.{
  mark_trajectory_label, label_of, marked, labelled_file, for_prompt, for_file_operation,
  for_file_result, target_of, for_tool_call, for_shell_command, for_web_fetch, for_shell_output,
  for_web_output, for_tool_output,
}

-- An entity that is not the entity of a trajectory.
abbrev pub IsOther : Entity → Type 0
IsOther e = (id : Text) → uid_eq e.uid (euid (codes "Trajectory") id) ≡ false

module _ (outside : Outside) (faults : Faults) (event : Event) (R : Db → Db → Type 0) where
  -- A relation that holds along each access of the arms.
  pub record Holds : Type 1 where
    pub same : (db : Db) → R db db
    pub trans : (a b c : Db) → R a b → R b c → R a c
    pub marks :
        (label : Label) (db : Db) → R db (mark_trajectory_label outside faults event label db).1
    pub writes : (e : Entity) (db : Db) → IsOther e → R db (upsert faults e db).1

  module _ (holds : Holds) where
    passes :
        {A B : Type 0} (db : Db) (o : Outcome A) (k : A → Db → Outcome B)
        → R db o.1
        → ((a : A) (db1 : Db) → R db1 (k a db1).1)
        → R db (and_then o k).1
    passes db o k = along R holds.trans db o k

    along_marked :
        (content : Text) (t : Target) (db : Db) → R db (marked outside faults event content t db).1
    along_marked content t db =
        passes db
          (mark_trajectory_label outside faults event (label_of outside faults event content) db) _
          (holds.marks _ db) (λ _ db1. holds.same db1)

    file-IsOther : (path content : Text) → IsOther (labelled_file outside faults event path content)
    unfolding uid_eq euid with_attr text_eq
    file-IsOther path content id = refl

    along_prompt : (p : Prompt) (db : Db) → R db (for_prompt outside faults event p db).1
    unfolding for_prompt uid_eq euid with_attr parent_uid text_eq
    along_prompt p db =
        passes db (upsert faults _ db) _ (holds.writes _ db (λ id. refl))
          (λ _ db1. along_marked p.content _ db1)

    along_file_operation :
        (fo : FileOperation) (db : Db) → R db (for_file_operation outside faults event fo db).1
    unfolding for_file_operation
    along_file_operation fo db =
        passes db (upsert faults _ db) _ (holds.writes _ db (file-IsOther fo.path _))
          (λ _ db1. along_marked _ _ db1)

    along_if :
        {A : Type 0} (b : Bool) (db : Db) (o p : Outcome A)
        → R db o.1
        → R db p.1
        → R db (if b then o else p).1
    along_if true db o p h k = h
    along_if false db o p h k = k

    along_file_result :
        (fo : FileOperationResult) (db : Db) → R db (for_file_result outside faults event fo db).1
    unfolding for_file_result
    along_file_result fo db =
        passes db (mark_trajectory_label outside faults event _ db) _ (holds.marks _ db) (λ _ db1.
          along_if (is_empty (or_empty fo.path)) db1 _ _ (holds.same db1) (
            passes db1 (upsert faults _ db1) _
              (holds.writes _ db1 (file-IsOther (or_empty fo.path) _)) (λ _ db2. holds.same db2)))

    pub along_target_of :
        (payload : TrajectoryEvent) (db : Db) → R db (target_of outside faults event payload db).1
    unfolding target_of for_tool_call for_shell_command for_web_fetch for_shell_output
        for_web_output for_tool_output
    along_target_of (observation (prompt_shown p)) db = along_prompt p db
    along_target_of (action (tool_call tc)) db = along_marked _ _ db
    along_target_of (action (shell_command sc)) db = holds.same db
    along_target_of (action (web_fetch wf)) db = holds.same db
    along_target_of (action (file_operation fo)) db = along_file_operation fo db
    along_target_of (observation (shell_command_output sco)) db = along_marked _ _ db
    along_target_of (observation (web_fetch_output wfo)) db = along_marked _ _ db
    along_target_of (observation (file_operation_result fo)) db = along_file_result fo db
    along_target_of (observation (tool_output out)) db = along_marked _ _ db
    along_target_of (observation (thought_had t)) db = holds.same db
    along_target_of (control c) db = holds.same db
    along_target_of (state s) db = holds.same db
