-- ===== src/Hooks/Claude/Action.antt =====
-- The action that a tool call of Claude Code asks for: `normalize_pre_tool_action` of
-- crates/hooks/claude/src/hooks.rs. `is_plan_file`, which asks the file system, is a parameter.
pub mod Laws
use sondera_coding_agent_hoo.Prelude.{Bool, Option, none, some, List, [], ◌∷◌, if◌then◌else◌}
use sondera_coding_agent_hoo.Prelude.Text.{Text, codes, text_eq, contains_text}
use sondera_coding_agent_hoo.Types.Json.{
  Json, Members, bool, object, closed, member, as_str, get_key,
}
use sondera_coding_agent_hoo.Types.Action.{
  Action, FileOpType, tool_call, shell_command, web_fetch, file_operation,
}
use sondera_coding_agent_hoo.Hooks.Tool.{string_arg}

-- `map.insert(key, value)`.
unfoldable pub put_member : Members → Text → Json → Members
put_member closed k v = member k v closed
put_member (member j w ms) k v =
    let rest = put_member ms k v in if text_eq j k then member j v ms else member j w rest

unfoldable pub plan_path : Option Json → Option Json → Option Text
plan_path (some v) w = as_str v
plan_path none (some v) = as_str v
plan_path none none = none

abbrev pub plan_file_key : Text
plan_file_key = codes "is_plan_file"

text_or : Text → Option Text → Text
text_or d none = d
text_or d (some s) = s

module _ (is_plan_file : Text → Bool) where
  unfoldable pub put_plan_flag : Option Text → Members → Json
  unfolding put_member
  put_plan_flag none ms = object ms
  put_plan_flag (some path) ms = object (put_member ms plan_file_key (bool (is_plan_file path)))

  unfoldable pub enrich_with_plan_file_flag : Json → Json
  unfolding put_plan_flag plan_path
  enrich_with_plan_file_flag (object ms) =
      put_plan_flag
        (plan_path (get_key (object ms) (codes "file_path"))
          (get_key (object ms) (codes "notebook_path")))
        ms
  enrich_with_plan_file_flag v = v

-- `tool_input_str` is `string_arg`; the arms of the `match` on the name of the tool.
unfoldable pub file_action :
    FileOpType → Text → Text → Option Text → Option Text → Option Text → Action
unfolding text_or
file_action operation id default_path path content old_content = file_operation (record {
  call_id = id;
  operation = operation;
  path = text_or default_path path;
  content = content;
  old_content = old_content;
})

abbrev pub path_keys : List Text
path_keys = codes "file_path" ∷ codes "path" ∷ codes "notebook_path" ∷ []

unfoldable pub edit_action : Text → Json → Action
unfolding file_action string_arg
edit_action id input =
    file_action FileOpType.edit id [] (string_arg input path_keys)
      (string_arg input (codes "new_string" ∷ codes "content" ∷ codes "new_content" ∷ []))
      (string_arg input (codes "old_string" ∷ codes "old_content" ∷ []))

unfoldable pub write_action : Text → Json → Action
unfolding file_action string_arg
write_action id input =
    file_action FileOpType.write id [] (string_arg input path_keys)
      (string_arg input (codes "content" ∷ codes "new_string" ∷ codes "new_content" ∷ [])) none

unfoldable pub notebook_action : Text → Json → Action
unfolding file_action string_arg
notebook_action id input =
    file_action FileOpType.edit id []
      (string_arg input (codes "notebook_path" ∷ codes "file_path" ∷ codes "path" ∷ []))
      (string_arg input (codes "new_source" ∷ codes "content" ∷ codes "new_content" ∷ [])) none

unfoldable pub normalize_pre_tool_action : (Text → Bool) → Text → Text → Text → Json → Action
unfolding edit_action write_action notebook_action file_action string_arg text_or
    enrich_with_plan_file_flag
normalize_pre_tool_action is_plan_file name id cwd input =
    if contains_text (codes "Bash" ∷ codes "Shell" ∷ []) name
    then shell_command (record {
      call_id = id;
      command = text_or [] (string_arg input (codes "command" ∷ []));
      working_dir = some cwd;
    })
    else if text_eq name (codes "Read")
    then file_action FileOpType.read id [] (string_arg input path_keys) none none
    else if text_eq name (codes "Edit")
    then edit_action id (enrich_with_plan_file_flag is_plan_file input)
    else if text_eq name (codes "Write")
    then write_action id (enrich_with_plan_file_flag is_plan_file input)
    else if contains_text (codes "Glob" ∷ codes "Grep" ∷ []) name
    then file_action FileOpType.read id cwd (string_arg input (codes "path" ∷ []))
        (string_arg input (codes "pattern" ∷ [])) none
    else if text_eq name (codes "NotebookEdit")
    then notebook_action id (enrich_with_plan_file_flag is_plan_file input)
    else if text_eq name (codes "WebFetch")
    then web_fetch (record {
      call_id = id;
      url = text_or [] (string_arg input (codes "url" ∷ []));
      prompt = text_or [] (string_arg input (codes "prompt" ∷ []));
    })
    else tool_call (record { call_id = id; tool = name; arguments = input })
