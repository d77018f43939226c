-- ===== src/Cedar/Request/Targets.antt =====
-- The match of `build_request` on the payload of an event, arm by arm
-- (crates/policy/cedar/src/transform.rs).
pub mod Along
pub mod Marked
use sondera_coding_agent_hoo.Prelude.{
  ℕ, Bool, true, false, not, Option, none, some, List, [], ◌∷◌, ◌++◌, if◌then◌else◌, leb,
}
use sondera_coding_agent_hoo.Prelude.Text.{Text, codes, is_empty}
use sondera_coding_agent_hoo.Prelude.Unicode.{Unicode}
use sondera_coding_agent_hoo.Types.Json.{Json, as_str}
use sondera_coding_agent_hoo.Types.Action.{
  ToolCall, ShellCommand, WebFetch, FileOpType, FileOperation, read, write, edit, delete, tool_call,
  shell_command, web_fetch, file_operation,
}
use sondera_coding_agent_hoo.Types.Observation.{
  PromptRole, Prompt, ToolOutput, ShellCommandOutput, WebFetchOutput, FileOperationResult, user,
  system, assistant, prompt_shown, tool_output, shell_command_output, web_fetch_output,
  file_operation_result,
}
use sondera_coding_agent_hoo.Types.Event.{Event, TrajectoryEvent, action, observation}
use sondera_coding_agent_hoo.Guardrails.Label.{Label, Classified, level, serde_name}
use sondera_coding_agent_hoo.Guardrails.Signature.{Match, scan}
use sondera_coding_agent_hoo.Guardrails.Violations.{PolicyClassification}
use sondera_coding_agent_hoo.Cedar.Path.{normalize_path_value}
use sondera_coding_agent_hoo.Cedar.Shell.Node.{Tree}
use sondera_coding_agent_hoo.Cedar.Shell.Walk.{analyze_shell_command}
use sondera_coding_agent_hoo.Cedar.Url.{Url, parse_url}
use sondera_coding_agent_hoo.Cedar.Context.{
  Timed, fields, natural, texts, workspace_context, classify_label, classify_policy, policy_json,
  signature_json, shell_json, url_json,
}
use sondera_coding_agent_hoo.Cedar.Entity.{
  Uid, Value, Entity, Trajectory, euid, new_entity, with_attr, parent_uid, new_trajectory,
  into_entity, from_entity, increment,
}
use sondera_coding_agent_hoo.Cedar.Store.{
  Db, Faults, Result, Outcome, ok, err, and_then, upsert, update_entity,
}
use sondera_coding_agent_hoo.Cedar.Request.{
  Outside, Request, Target, raise_label, count_step, op_name, role_name, or_empty, scannable,
  trajectory_uid,
}

module _ (outside : Outside) (faults : Faults) (event : Event) where
  unfoldable pub mark_trajectory_label : Label → Db → Outcome Unit
  unfolding raise_label update_entity
  mark_trajectory_label label db =
      update_entity faults (trajectory_uid event) (raise_label label) db

  abbrev pub label_of : Text → Label
  label_of content = classify_label outside.data_model content

  abbrev pub label_json : Text → Text × Json
  label_json content =
      (codes "label", outside.uid_json (euid (codes "Label") (serde_name (label_of content))))

  -- The fields `label`, `policy` and `signature` of a judged content.
  abbrev pub judged : Text → List (Text × Json)
  judged content =
      label_json content
      ∷ (codes "policy", policy_json (classify_policy outside.policy_model content))
      ∷ (codes "signature", signature_json (scan outside.scanner content))
      ∷ []

  abbrev pub workspace : Text × Json
  workspace = (codes "workspace", workspace_context event)

  abbrev pub act : Text → Uid
  act name = euid (codes "Action") name

  abbrev text_field : Text → Text → Text × Json
  text_field key value = (key, Json.string value)

  -- The label of the content marks the trajectory; then the target is returned.
  abbrev marked : Text → Target → Db → Outcome Target
  marked content target db =
      and_then (mark_trajectory_label (label_of content) db) (λ _ db1. (ok target, db1))

  abbrev pub labelled_file : Text → Text → Entity
  labelled_file path content =
      with_attr (codes "label")
        (Value.entity_uid (euid (codes "Label") (serde_name (label_of content))))
        (new_entity (euid (codes "File") path))

  for_prompt : Prompt → Db → Outcome Target
  for_prompt p db =
      let message_uid = euid (codes "Message") event.event_id in
      let message = with_attr (codes "role") (Value.string (role_name p.role)) (
        with_attr (codes "content") (Value.string p.content)
          (parent_uid (trajectory_uid event) (new_entity message_uid))) in
      and_then (upsert faults message db) (λ _ db1.
        marked p.content
          (record {
            action_id = act (codes "Prompt");
            resource = message_uid;
            context =
                workspace
                ∷ label_json p.content
                ∷ (codes "signature", signature_json (scan outside.scanner p.content))
                ∷ [];
          })
          db1)

  for_tool_call : ToolCall → Db → Outcome Target
  for_tool_call tc db =
      let arguments = outside.json_text tc.arguments in
      let content = tc.tool ++ (b'\n' ∷ arguments) in
      marked content
        (record {
          action_id = act (codes "PreToolUse");
          resource = euid (codes "Tool") tc.tool;
          context =
              workspace
              ∷ text_field (codes "tool") tc.tool
              ∷ text_field (codes "arguments") arguments
              ∷ judged content;
        })
        db

  -- This arm and the next leave the label of the trajectory as it is.
  for_shell_command : ShellCommand → Db → Outcome Target
  for_shell_command sc db =
      let parse = analyze_shell_command outside.unicode outside.parse_shell sc.command in
      (
        ok (record {
          action_id = act (codes "ShellCommand");
          resource = (trajectory_uid event);
          context =
              workspace
              ∷ text_field (codes "command") sc.command
              ∷ text_field (codes "working_dir") (or_empty sc.working_dir)
              ∷ (judged sc.command
                  ++ (
                    codes "file_signature",
                    fields (
                        (codes "matches", natural 0)
                        ∷ (codes "categories", texts [])
                        ∷ (codes "severity", natural 0)
                        ∷ []),
                  )
                    ∷ (codes "parse", shell_json parse)
                    ∷ []);
        }),
        db,
      )

  for_web_fetch : WebFetch → Db → Outcome Target
  for_web_fetch wf db =
      let content = wf.url ++ (b'\n' ∷ wf.prompt) in
      (
        ok (record {
          action_id = act (codes "WebFetch");
          resource = (trajectory_uid event);
          context =
              workspace
              ∷ text_field (codes "url") wf.url
              ∷ text_field (codes "prompt") wf.prompt
              ∷ (judged content
                  ++ (codes "url_parse", url_json (parse_url outside.parse_url wf.url)) ∷ []);
        }),
        db,
      )

  for_file_operation : FileOperation → Db → Outcome Target
  for_file_operation fo db =
      let content = scannable fo in
      and_then (upsert faults (labelled_file fo.path content) db) (λ _ db1.
        marked content
          (record {
            action_id = act (codes "File" ++ op_name fo.operation);
            resource = euid (codes "File") fo.path;
            context =
                workspace
                ∷ text_field (codes "path") fo.path
                ∷ text_field (codes "path_normalized")
                    (normalize_path_value outside.unicode fo.path)
                ∷ text_field (codes "operation") (op_name fo.operation)
                ∷ judged content;
          })
          db1)

  for_shell_output : ShellCommandOutput → Db → Outcome Target
  for_shell_output sco db =
      let content = sco.stdout ++ (b'\n' ∷ sco.stderr) in
      marked content
        (record {
          action_id = act (codes "ShellCommandOutput");
          resource = (trajectory_uid event);
          context =
              workspace
              ∷ text_field (codes "command") []
              ∷ text_field (codes "working_dir") []
              ∷ (codes "exit_code", Json.integer sco.exit_code)
              ∷ text_field (codes "stdout") sco.stdout
              ∷ text_field (codes "stderr") sco.stderr
              ∷ judged content;
        })
        db

  for_web_output : WebFetchOutput → Db → Outcome Target
  for_web_output wfo db =
      marked wfo.result
        (record {
          action_id = act (codes "WebFetchOutput");
          resource = (trajectory_uid event);
          context =
              workspace
              ∷ text_field (codes "url") wfo.url
              ∷ (codes "code", Json.integer wfo.code)
              ∷ text_field (codes "result") wfo.result
              ∷ judged wfo.result;
        })
        db

  for_file_result : FileOperationResult → Db → Outcome Target
  for_file_result fo db =
      let path = or_empty fo.path in
      let content = or_empty fo.content in
      let target : Target = record {
        action_id = act (codes "FileOperationResult");
        resource = (trajectory_uid event);
        context =
            workspace
            ∷ text_field (codes "path") path
            ∷ text_field (codes "path_normalized") (normalize_path_value outside.unicode path)
            ∷ text_field (codes "content") content
            ∷ judged content;
      } in
      and_then (mark_trajectory_label (label_of content) db) (λ _ db1.
        if is_empty path
        then (ok target, db1)
        else and_then (upsert faults (labelled_file path content) db1) (λ _ db2. (ok target, db2)))

  for_tool_output : ToolOutput → Db → Outcome Target
  for_tool_output out db =
      let content : Text = elim (as_str out.output) [
        | some s ↦ s
        | none ↦ outside.json_text out.output
      ] in
      marked content
        (record {
          action_id = act (codes "ToolOutput");
          resource = (trajectory_uid event);
          context = workspace ∷ text_field (codes "content") content ∷ judged content;
        })
        db

  -- The match of `build_request` on the payload.
  unfoldable pub target_of : TrajectoryEvent → Db → Outcome Target
  unfolding for_prompt for_tool_call for_shell_command for_web_fetch for_file_operation
      for_shell_output for_web_output for_file_result for_tool_output mark_trajectory_label
  target_of (observation (prompt_shown p)) db = for_prompt p db
  target_of (action (tool_call tc)) db = for_tool_call tc db
  target_of (action (shell_command sc)) db = for_shell_command sc db
  target_of (action (web_fetch wf)) db = for_web_fetch wf db
  target_of (action (file_operation fo)) db = for_file_operation fo db
  target_of (observation (shell_command_output sco)) db = for_shell_output sco db
  target_of (observation (web_fetch_output wfo)) db = for_web_output wfo db
  target_of (observation (file_operation_result fo)) db = for_file_result fo db
  target_of (observation (tool_output out)) db = for_tool_output out db
  target_of unsupported db = (err (codes "Unsupported event type for Cedar authorization"), db)
