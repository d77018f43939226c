-- ===== src/Hooks/Tool.antt =====
-- The names and arguments of tools: crates/hooks/core/src/tool.rs.
pub mod Laws
pub mod Web
use sondera_coding_agent_hoo.Prelude.{
  ℕ, Bool, true, false, not, ◌&&◌, ◌||◌, Option, none, some, List, [], ◌∷◌, map, if◌then◌else◌,
  ◌==◌,
}
use sondera_coding_agent_hoo.Prelude.Text.{Text, codes, text_eq, contains_text, is_empty}
use sondera_coding_agent_hoo.Prelude.Unicode.{ascii_lower}
use sondera_coding_agent_hoo.Types.Json.{
  Json, Elements, none_left, element, as_str, as_array, get_key,
}
use sondera_coding_agent_hoo.Types.Action.{FileOpType, FileOperation, WebFetch}

abbrev is_separator : ℕ → Bool
is_separator c = (c == b'_') || (c == b'-') || (c == b' ')

unfoldable pub normalize_tool_name : Text → Text
normalize_tool_name [] = []
normalize_tool_name (c ∷ s) =
    let rest = normalize_tool_name s in if is_separator c then rest else ascii_lower c ∷ rest

abbrev file_path_keys : List Text
file_path_keys =
    codes "filePath"
    ∷ codes "file_path"
    ∷ codes "absolutePath"
    ∷ codes "absolute_path"
    ∷ codes "AbsolutePath"
    ∷ codes "targetFile"
    ∷ codes "target_file"
    ∷ codes "TargetFile"
    ∷ codes "notebook_path"
    ∷ codes "notebookPath"
    ∷ codes "path"
    ∷ codes "Path"
    ∷ codes "file"
    ∷ codes "uri"
    ∷ []

str_of : Option Json → Option Text
str_of none = none
str_of (some v) = as_str v

-- `a.or_else(|| b)`.
unfoldable pub or_text : Option Text → Option Text → Option Text
or_text none b = b
or_text (some a) b = some a

-- `string_arg`, and `json_string_field` of crates/hooks/core/src/common.rs.
unfoldable pub string_arg : Json → List Text → Option Text
unfolding str_of or_text
string_arg args [] = none
string_arg args (k ∷ ks) = or_text (str_of (get_key args k)) (string_arg args ks)

text_or : Text → Option Text → Text
text_or d none = d
text_or d (some s) = s

unfoldable pub file_path_arg : Json → Text
unfolding string_arg text_or
file_path_arg args = text_or [] (string_arg args file_path_keys)

abbrev content_keys : List Text
content_keys =
    codes "content"
    ∷ codes "file_text"
    ∷ codes "fileText"
    ∷ codes "new_str"
    ∷ codes "newStr"
    ∷ codes "new_string"
    ∷ codes "newString"
    ∷ codes "new_content"
    ∷ codes "newContent"
    ∷ codes "text"
    ∷ codes "code"
    ∷ codes "insert_line_content"
    ∷ []

abbrev old_content_keys : List Text
old_content_keys =
    codes "old_str"
    ∷ codes "oldStr"
    ∷ codes "old_string"
    ∷ codes "oldString"
    ∷ codes "old_content"
    ∷ codes "oldContent"
    ∷ []

abbrev patch_keys : List Text
patch_keys = codes "patch" ∷ codes "diff" ∷ codes "input" ∷ []

abbrev patch_tools : List Text
patch_tools = codes "applypatch" ∷ codes "patch" ∷ codes "applydiff" ∷ []

abbrev read_tools : List Text
read_tools =
    codes "read"
    ∷ codes "readfile"
    ∷ codes "readfiles"
    ∷ codes "readmanyfiles"
    ∷ codes "view"
    ∷ codes "viewfile"
    ∷ codes "openfile"
    ∷ []

abbrev write_tools : List Text
write_tools =
    codes "write"
    ∷ codes "writefile"
    ∷ codes "create"
    ∷ codes "createfile"
    ∷ codes "newfile"
    ∷ codes "savefile"
    ∷ []

abbrev edit_tools : List Text
edit_tools =
    codes "edit"
    ∷ codes "editfile"
    ∷ codes "editfiles"
    ∷ codes "replace"
    ∷ codes "strreplace"
    ∷ codes "replaceinfile"
    ∷ codes "replacestringinfile"
    ∷ codes "inserteditintofile"
    ∷ codes "multiedit"
    ∷ codes "applypatch"
    ∷ codes "patch"
    ∷ codes "applydiff"
    ∷ []

abbrev delete_tools : List Text
delete_tools = codes "delete" ∷ codes "deletefile" ∷ codes "removefile" ∷ codes "rmfile" ∷ []

unfoldable pub file_op_for_name : Text → Option FileOpType
file_op_for_name folded =
    if contains_text read_tools folded
    then some FileOpType.read
    else if contains_text write_tools folded
    then some FileOpType.write
    else if contains_text edit_tools folded
    then some FileOpType.edit
    else if contains_text delete_tools folded
    then some FileOpType.delete
    else none

abbrev multiplexed_editors : List Text
multiplexed_editors =
    codes "strreplaceeditor" ∷ codes "strreplacebasededittool" ∷ codes "texteditor" ∷ []

abbrev command_keys : List Text
command_keys = codes "command" ∷ codes "subcommand" ∷ codes "operation" ∷ codes "action" ∷ []

editor_command : Option Text → Text
unfolding normalize_tool_name
editor_command none = []
editor_command (some s) = normalize_tool_name s

editor_op : Text → FileOpType
editor_op command =
    if contains_text (codes "view" ∷ codes "read" ∷ []) command
    then FileOpType.read
    else if contains_text (codes "create" ∷ codes "write" ∷ []) command
    then FileOpType.write
    else if contains_text (codes "delete" ∷ codes "remove" ∷ []) command
    then FileOpType.delete
    else FileOpType.edit

-- `file_op_for` behind the folding of the name.
file_op_for_folded : Text → Json → Option FileOpType
unfolding editor_op editor_command string_arg file_op_for_name
file_op_for_folded folded args =
    if contains_text multiplexed_editors folded
    then some (editor_op (editor_command (string_arg args command_keys)))
    else file_op_for_name folded

unfoldable pub file_op_for : Text → Json → Option FileOpType
unfolding file_op_for_folded normalize_tool_name
file_op_for name args = file_op_for_folded (normalize_tool_name name) args

is_none : Option Text → Bool
is_none none = true
is_none (some s) = false

-- The operation with its path and content, unless the two guards refuse it.
unfoldable pub guarded :
    FileOpType → Text → Bool → Option Text → Option Text → Text → Option FileOperation
unfolding is_none
guarded operation path is_patch content old_content call_id =
    if is_empty path && not is_patch
    then none
    else if is_empty path && is_none content
    then none
    else some (record {
      call_id = call_id;
      operation = operation;
      path = path;
      content = content;
      old_content = old_content;
    })

-- `file_operation_for` and `web_fetch_for` behind the folding of the name.
unfoldable pub file_operation_folded : Text → Json → Text → Option FileOperation
unfolding file_op_for_folded file_path_arg guarded string_arg or_text
file_operation_folded folded args call_id = elim (file_op_for_folded folded args) [
  | none ↦ none
  | some operation ↦
      guarded operation (file_path_arg args) (contains_text patch_tools folded)
        (or_text (string_arg args content_keys) (string_arg args patch_keys))
        (string_arg args old_content_keys) call_id
]

unfoldable pub file_operation_for : Text → Json → Text → Option FileOperation
unfolding file_operation_folded normalize_tool_name
file_operation_for name args call_id = file_operation_folded (normalize_tool_name name) args call_id

is_some : {A : Type 0} → Option A → Bool
is_some none = false
is_some (some a) = true

unfoldable pub is_file_operation : Text → Json → Bool
unfolding is_some file_operation_for
is_file_operation name args = is_some (file_operation_for name args [])
