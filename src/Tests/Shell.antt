-- ===== src/Tests/Shell.antt =====
-- The shell analysis (crates/policy/cedar/src/shell_parse.rs) on syntax trees of small commands.
use sondera_coding_agent_hoo.Prelude.{
  ℕ, ◌≡◌, ◌≢◌, refl, inl, ◌++◌, Bool, true, false, Option, none, some, List, [], ◌∷◌, Has, length,
  ◌≤◌,
}
use sondera_coding_agent_hoo.Prelude.Text.{Text, codes, as_bytes}
use sondera_coding_agent_hoo.Prelude.Unicode.{ascii_only}
use sondera_coding_agent_hoo.Cedar.Shell.Node.{
  Kind, Node, Children, Tree, node, nil, child, name, argument, unnamed, literal_text,
  literal_parts, named, first_named,
}
use sondera_coding_agent_hoo.Cedar.Shell.Record.{
  ShellParse, empty, insert_program, insert_arg, insert_flag,
}
use sondera_coding_agent_hoo.Cedar.Shell.Walk.{
  Reparse, parse_with_depth, analyze_shell_command, parse_once, parse_tree, walker, visit,
  handle_command, command_parts, command_with_name, named_command, classify_invocation,
  classify_shell, peel_wrapper, peel_from, peel_token, mine_args, mark, classify_args, classify_arg,
  find_c_script,
}
use sondera_coding_agent_hoo.Cedar.Shell.Words.{normalize_program}
use sondera_coding_agent_hoo.Prelude.Sets.{set_insert}
use sondera_coding_agent_hoo.Cedar.Shell.Walk.Occurs.{Occurs, here, inside}
use sondera_coding_agent_hoo.Cedar.Shell.Walk.Complete.{analyze_shell_command_complete}
use sondera_coding_agent_hoo.Cedar.Shell.Walk.Sound.{IsParsed, analyze_shell_command_ok}
use sondera_coding_agent_hoo.Cedar.Shell.Walk.Script.{
  literals, shell_script_complete, eval_script_complete, script_too_deep,
}
use sondera_coding_agent_hoo.Cedar.Shell.Tables.{max_command_bytes, is_shell}

abbrev word_node : Text → Node
word_node t = node Kind.word (some t) nil

abbrev name_node : Text → Node
name_node t = node Kind.command_name (some t) (child unnamed true (word_node t) nil)

-- `sudo rm -rf /`
abbrev sudo_rm : Node
sudo_rm = node Kind.command (some (codes "sudo rm -rf /")) (
    child name true (name_node (codes "sudo")) (
      child argument true (word_node (codes "rm")) (
        child argument true (word_node (codes "-rf"))
          (child argument true (word_node (codes "/")) nil))))

abbrev sudo_tree : Tree
sudo_tree = record {
  root = node Kind.other (some (codes "sudo rm -rf /")) (child unnamed true sudo_rm nil);
  has_error = false;
}

abbrev sudo_parse : ShellParse
sudo_parse = analyze_shell_command ascii_only (λ c. some sudo_tree) (codes "sudo rm -rf /")

sudo_programs : sudo_parse.programs ≡ codes "rm" ∷ codes "sudo" ∷ []
unfolding analyze_shell_command parse_once parse_tree walker visit handle_command command_parts
    command_with_name named_command classify_invocation classify_shell peel_wrapper peel_from
    peel_token literal_text literal_parts named first_named mine_args mark normalize_program
    insert_program insert_arg insert_flag classify_args classify_arg set_insert as_bytes
    sondera_coding_agent_hoo.Prelude.Text.is_empty
    sondera_coding_agent_hoo.Prelude.Text.strip_suffix
    sondera_coding_agent_hoo.Prelude.Unicode.text_to_lowercase
    sondera_coding_agent_hoo.Prelude.Text.last_piece
    sondera_coding_agent_hoo.Cedar.Shell.Words.unescape_unquoted_word
    sondera_coding_agent_hoo.Cedar.Shell.Tables.wrapper_spec
    sondera_coding_agent_hoo.Prelude.Text.text_eq
    sondera_coding_agent_hoo.Cedar.Shell.Tables.is_flag_token
    sondera_coding_agent_hoo.Prelude.Text.starts_with is_shell
    sondera_coding_agent_hoo.Prelude.Text.contains_text
    sondera_coding_agent_hoo.Cedar.Shell.Node.raw_windows_path_source
    sondera_coding_agent_hoo.Cedar.Shell.Words.looks_like_raw_windows_path
    sondera_coding_agent_hoo.Cedar.Shell.Record.insert_normalized_arg_view
    sondera_coding_agent_hoo.Prelude.Sets.text_cmp
sudo_programs = refl

sudo_ok : sudo_parse.ok ≡ true
unfolding analyze_shell_command parse_once parse_tree walker visit handle_command command_parts
    command_with_name named_command classify_invocation classify_shell peel_wrapper peel_from
    peel_token literal_text literal_parts named first_named mine_args mark normalize_program
    insert_program insert_arg insert_flag classify_args classify_arg set_insert as_bytes
    sondera_coding_agent_hoo.Prelude.Text.is_empty
    sondera_coding_agent_hoo.Prelude.Text.strip_suffix
    sondera_coding_agent_hoo.Prelude.Unicode.text_to_lowercase
    sondera_coding_agent_hoo.Prelude.Text.last_piece
    sondera_coding_agent_hoo.Cedar.Shell.Words.unescape_unquoted_word
    sondera_coding_agent_hoo.Cedar.Shell.Tables.wrapper_spec
    sondera_coding_agent_hoo.Prelude.Text.text_eq
    sondera_coding_agent_hoo.Cedar.Shell.Tables.is_flag_token
    sondera_coding_agent_hoo.Prelude.Text.starts_with is_shell
    sondera_coding_agent_hoo.Prelude.Text.contains_text
    sondera_coding_agent_hoo.Cedar.Shell.Node.raw_windows_path_source
    sondera_coding_agent_hoo.Cedar.Shell.Words.looks_like_raw_windows_path
    sondera_coding_agent_hoo.Cedar.Shell.Record.insert_normalized_arg_view
    sondera_coding_agent_hoo.Prelude.Sets.text_cmp
sudo_ok = refl

sudo-Occurs : Occurs ascii_only (codes "sudo") sudo_tree.root
unfolding named first_named literal_text normalize_program
    sondera_coding_agent_hoo.Cedar.Shell.Words.unescape_unquoted_word
    sondera_coding_agent_hoo.Prelude.Text.strip_suffix
    sondera_coding_agent_hoo.Prelude.Unicode.text_to_lowercase
    sondera_coding_agent_hoo.Prelude.Text.last_piece
sudo-Occurs =
    inside sudo_rm (λ h. cc) (inl refl)
      (here (name_node (codes "sudo")) (word_node (codes "sudo")) (codes "sudo") refl refl refl refl
        (λ h. cc))

analyze_shell_command_complete_example : Has (codes "sudo") sudo_parse.programs
analyze_shell_command_complete_example =
    analyze_shell_command_complete ascii_only (λ c. some sudo_tree) (codes "sudo rm -rf /")
      sudo_tree (codes "sudo") refl sudo-Occurs sudo_ok

analyze_shell_command_ok_example :
    (length (as_bytes (codes "sudo rm -rf /")) ≤ max_command_bytes) × IsParsed (some sudo_tree)
analyze_shell_command_ok_example =
    analyze_shell_command_ok ascii_only (λ c. some sudo_tree) (codes "sudo rm -rf /") sudo_ok

-- `bash -c 'sudo rm -rf /'` and `eval sudo rm`, where every script parses as `sudo_tree`.
abbrev bash_args : List Node
bash_args =
    word_node (codes "-c")
    ∷ node Kind.raw_string (some (0x27 ∷ codes "sudo" ++ (0x27 ∷ []))) nil
    ∷ []

abbrev eval_args : List Node
eval_args = word_node (codes "sudo") ∷ word_node (codes "rm") ∷ []

abbrev fresh_parse : ShellParse
fresh_parse = record empty { ok = true }

abbrev parse_all : Text → Option Tree
parse_all c = some sudo_tree

abbrev one_left : Reparse
one_left = some (parse_with_depth ascii_only parse_all 0)

bash_script : find_c_script bash_args ≡ some (1, codes "sudo")
unfolding find_c_script literal_text sondera_coding_agent_hoo.Prelude.Text.strip_prefix
    sondera_coding_agent_hoo.Cedar.Shell.Words.unescape_unquoted_word
    sondera_coding_agent_hoo.Prelude.Text.starts_with
    sondera_coding_agent_hoo.Prelude.Text.contains_char
    sondera_coding_agent_hoo.Prelude.Text.strip_suffix
bash_script = refl

is_bash : is_shell (codes "bash") ≡ true
unfolding is_shell sondera_coding_agent_hoo.Prelude.Text.contains_text
    sondera_coding_agent_hoo.Prelude.Text.text_eq
is_bash = refl

bash_ok :
    (classify_invocation ascii_only
      (walker ascii_only one_left 3)
      one_left
      (codes "bash")
      bash_args
      fresh_parse).ok
    ≡ true
unfolding parse_once parse_tree walker visit handle_command command_parts command_with_name
    named_command classify_invocation classify_shell peel_wrapper peel_from peel_token literal_text
    literal_parts named first_named mine_args mark normalize_program insert_program insert_arg
    insert_flag classify_args classify_arg set_insert as_bytes
    sondera_coding_agent_hoo.Prelude.Text.is_empty
    sondera_coding_agent_hoo.Prelude.Text.strip_suffix
    sondera_coding_agent_hoo.Prelude.Unicode.text_to_lowercase
    sondera_coding_agent_hoo.Prelude.Text.last_piece
    sondera_coding_agent_hoo.Cedar.Shell.Words.unescape_unquoted_word
    sondera_coding_agent_hoo.Cedar.Shell.Tables.wrapper_spec
    sondera_coding_agent_hoo.Prelude.Text.text_eq
    sondera_coding_agent_hoo.Cedar.Shell.Tables.is_flag_token
    sondera_coding_agent_hoo.Prelude.Text.starts_with is_shell
    sondera_coding_agent_hoo.Prelude.Text.contains_text
    sondera_coding_agent_hoo.Cedar.Shell.Node.raw_windows_path_source
    sondera_coding_agent_hoo.Cedar.Shell.Words.looks_like_raw_windows_path
    sondera_coding_agent_hoo.Cedar.Shell.Record.insert_normalized_arg_view
    sondera_coding_agent_hoo.Prelude.Sets.text_cmp find_c_script
    sondera_coding_agent_hoo.Prelude.Text.strip_prefix
    sondera_coding_agent_hoo.Prelude.Text.contains_char parse_with_depth
    sondera_coding_agent_hoo.Cedar.Shell.Walk.reparse_script
    sondera_coding_agent_hoo.Cedar.Shell.Record.merge
    sondera_coding_agent_hoo.Cedar.Shell.Walk.handle_eval
    sondera_coding_agent_hoo.Cedar.Shell.Walk.eval_parts
    sondera_coding_agent_hoo.Cedar.Shell.Walk.literal_parts_of
    sondera_coding_agent_hoo.Cedar.Shell.Walk.join_space
bash_ok = refl

shell_script_complete_example :
    Has
      (codes "sudo")
      (classify_invocation ascii_only
        (walker ascii_only one_left 3)
        one_left
        (codes "bash")
        bash_args
        fresh_parse).programs
shell_script_complete_example =
    shell_script_complete ascii_only parse_all 3 0 (codes "bash") bash_args fresh_parse 1
      (codes "sudo") (codes "sudo") sudo_tree is_bash bash_script refl sudo-Occurs bash_ok

eval_literals : literals eval_args ≡ codes "sudo" ∷ codes "rm" ∷ []
unfolding literal_text sondera_coding_agent_hoo.Cedar.Shell.Words.unescape_unquoted_word
eval_literals = refl

eval_ok :
    (classify_invocation ascii_only
      (walker ascii_only one_left 3)
      one_left
      (codes "eval")
      eval_args
      fresh_parse).ok
    ≡ true
unfolding parse_with_depth sondera_coding_agent_hoo.Cedar.Shell.Walk.handle_eval
    sondera_coding_agent_hoo.Cedar.Shell.Walk.eval_parts
    sondera_coding_agent_hoo.Cedar.Shell.Walk.literal_parts_of
    sondera_coding_agent_hoo.Cedar.Shell.Walk.join_space
    sondera_coding_agent_hoo.Cedar.Shell.Walk.reparse_script
    sondera_coding_agent_hoo.Cedar.Shell.Record.merge
    sondera_coding_agent_hoo.Prelude.Text.strip_prefix parse_once parse_tree walker visit
    handle_command command_parts command_with_name named_command classify_invocation classify_shell
    peel_wrapper peel_from peel_token literal_text literal_parts named first_named mine_args mark
    normalize_program insert_program insert_arg insert_flag classify_args classify_arg set_insert
    as_bytes sondera_coding_agent_hoo.Prelude.Text.is_empty
    sondera_coding_agent_hoo.Prelude.Text.strip_suffix
    sondera_coding_agent_hoo.Prelude.Unicode.text_to_lowercase
    sondera_coding_agent_hoo.Prelude.Text.last_piece
    sondera_coding_agent_hoo.Cedar.Shell.Words.unescape_unquoted_word
    sondera_coding_agent_hoo.Cedar.Shell.Tables.wrapper_spec
    sondera_coding_agent_hoo.Prelude.Text.text_eq
    sondera_coding_agent_hoo.Cedar.Shell.Tables.is_flag_token
    sondera_coding_agent_hoo.Prelude.Text.starts_with is_shell
    sondera_coding_agent_hoo.Prelude.Text.contains_text
    sondera_coding_agent_hoo.Cedar.Shell.Node.raw_windows_path_source
    sondera_coding_agent_hoo.Cedar.Shell.Words.looks_like_raw_windows_path
    sondera_coding_agent_hoo.Cedar.Shell.Record.insert_normalized_arg_view
    sondera_coding_agent_hoo.Prelude.Sets.text_cmp
eval_ok = refl

eval_script_complete_example :
    Has
      (codes "sudo")
      (classify_invocation ascii_only
        (walker ascii_only one_left 3)
        one_left
        (codes "eval")
        eval_args
        fresh_parse).programs
eval_script_complete_example =
    eval_script_complete ascii_only parse_all 3 0 eval_args fresh_parse (codes "sudo")
      (codes "sudo") (codes "rm" ∷ []) sudo_tree eval_literals refl sudo-Occurs eval_ok

script_too_deep_example :
    ((is_shell (codes "bash") ≡ true)
      → (find_c_script bash_args ≡ some (1, codes "sudo"))
      → (classify_invocation ascii_only
          (walker ascii_only none 3)
          none
          (codes "bash")
          bash_args
          fresh_parse).ok
        ≢ true)
    × ((t : Text) (parts : List Text)
        → literals bash_args ≡ t ∷ parts
        → (classify_invocation ascii_only
            (walker ascii_only none 3)
            none
            (codes "eval")
            bash_args
            fresh_parse).ok
          ≢ true)
script_too_deep_example =
    script_too_deep ascii_only parse_all 3 (codes "bash") bash_args fresh_parse 1 (codes "sudo")
