-- ===== src/Cedar/Shell/Walk.antt =====
-- The walk of crates/policy/cedar/src/shell_parse.rs: `visit`, `handle_command`,
-- `classify_invocation`, `peel_wrapper`, `handle_eval` and `parse_with_depth`.
--
-- `out: &mut ShellScan` is passed in and returned. The two depth counters of `Walk` run down
-- instead of up: a `Walker` is the walk at `MAX_TREE_DEPTH + 1 - tree_depth`, which stops at 0,
-- and `reparse` is `none` where `reparse_depth` has reached `MAX_REPARSE_DEPTH`.
pub mod Grow
pub mod GrowAll
pub mod Occurs
pub mod Finds
pub mod Peeled
pub mod Commands
pub mod Complete
pub mod Script
pub mod Sound
use sondera_coding_agent_hoo.Prelude.{
  ℕ, zero, suc, ◌-◌, Bool, true, false, not, ◌&&◌, Option, none, some, List, [], ◌∷◌, ◌++◌, ltb,
  ◌==◌, length, if◌then◌else◌,
}
use sondera_coding_agent_hoo.Prelude.Text.{
  Text, codes, text_eq, is_empty, starts_with, strip_prefix, contains_char, as_bytes,
}
use sondera_coding_agent_hoo.Prelude.Unicode.{Unicode}
use sondera_coding_agent_hoo.Cedar.Shell.Tables.{
  Wrapper, max_command_bytes, max_reparse_depth, max_tree_depth, wrapper_spec, is_shell,
  is_flag_token, wrapper_flag_consumes_value,
}
use sondera_coding_agent_hoo.Cedar.Shell.Words.{is_env_assignment, normalize_program}
use sondera_coding_agent_hoo.Cedar.Shell.Node.{
  Kind, Field, Node, Children, Tree, node, nil, child, name, argument, unnamed, first_named, named,
  literal_text, raw_windows_path_source,
}
use sondera_coding_agent_hoo.Cedar.Shell.Record.{
  ShellParse, empty, merge, insert_program, insert_arg, insert_flag,
}

pub record Walker : Type 0 where
  pub visit : Node → ShellParse → ShellParse
  pub classify : Text → List Node → ShellParse → ShellParse

-- `bash -c` and `eval` scripts: `parse_with_depth` one level deeper.
abbrev pub Reparse : Type 0
Reparse = Option (Text → ShellParse)

abbrev pub truncate : ShellParse → ShellParse
truncate p = record p { ok = false }

-- The end of the walk: extraction below this point is incomplete.
abbrev pub stopped : Walker
stopped = record { visit = λ n p. truncate p; classify = λ prog args p. truncate p }

unfoldable pub mine_args : Walker → List Node → ShellParse → ShellParse
mine_args deeper [] p = p
mine_args deeper (arg ∷ args) p = mine_args deeper args (deeper.visit arg p)

unfoldable pub reparse_script : Reparse → Text → ShellParse → ShellParse
reparse_script none script p = truncate p
reparse_script (some parse) script p = merge p (parse script)

-- A literal `-c`, or a short cluster with a `c` in it.
unfoldable pub is_c_flag : Text → Bool
is_c_flag text = elim (strip_prefix text (b'-' ∷ [])) [
  | none ↦ false
  | some body ↦ not (starts_with body (b'-' ∷ [])) && contains_char body b'c'
]

-- The loop of `find_c_script`, from the index `idx` on.
unfoldable pub find_c_script_from : ℕ → Bool → List Node → Option (ℕ × Text)
unfolding is_c_flag
find_c_script_from idx seen_c [] = none
find_c_script_from idx seen_c (arg ∷ args) =
    let later = find_c_script_from (suc idx) seen_c args in
    let later_seen = find_c_script_from (suc idx) true args in
    elim (literal_text arg) [
      | none ↦ later
      | some text ↦
          if seen_c
          then (if starts_with text (b'-' ∷ []) then later else some (idx, text))
          else if is_c_flag text
          then later_seen
          else later
    ]

unfoldable pub find_c_script : List Node → Option (ℕ × Text)
unfolding find_c_script_from
find_c_script args = find_c_script_from 0 false args

-- What `peel_wrapper` does at one token: go on, or hand the rest to the nested command.
pub data PeelStep : Type 0 where
  next : (skip_value : Bool) (skip_positionals : ℕ) (opts_ended : Bool) → ShellParse → PeelStep
  stop : ShellParse → PeelStep

unfoldable pub literal_parts_of :
    Walker → List Node → List Text → ShellParse → List Text × ShellParse
literal_parts_of deeper [] parts p = (parts, p)
literal_parts_of deeper (arg ∷ args) parts p = elim (literal_text arg) [
  | some text ↦ literal_parts_of deeper args (parts ++ text ∷ []) p
  | none ↦ literal_parts_of deeper args parts (deeper.visit arg p)
]

-- `parts.join(" ")`.
unfoldable pub join_space : List Text → Text
join_space [] = []
join_space (t ∷ []) = t
join_space (t ∷ s ∷ rest) = t ++ (b' ' ∷ join_space (s ∷ rest))

unfoldable pub eval_parts : Reparse → List Text → ShellParse → ShellParse
unfolding reparse_script join_space
eval_parts reparse [] p = p
eval_parts reparse (t ∷ parts) p = reparse_script reparse (join_space (t ∷ parts)) p

unfoldable pub handle_eval : Walker → Reparse → List Node → ShellParse → ShellParse
handle_eval deeper reparse args p =
    let (parts, p') = literal_parts_of deeper args [] p in eval_parts reparse parts p'

-- The value of an option is consumed; a dynamic one is walked.
visit_value : Walker → List Node → ShellParse → ShellParse
visit_value deeper [] p = p
visit_value deeper (value ∷ rest) p = elim (literal_text value) [
  | none ↦ deeper.visit value p
  | some text ↦ p
]

-- The loop over the children of a command: its name, its arguments, and all else walked.
unfoldable pub command_parts :
    Walker → Children → Option Node → List Node → ShellParse → Option Node × List Node × ShellParse
command_parts deeper nil name_node args p = (name_node, args, p)
command_parts deeper (child f false n cs) name_node args p =
    command_parts deeper cs name_node args p
command_parts deeper (child name true n cs) name_node args p =
    command_parts deeper cs (some n) args p
command_parts deeper (child argument true n cs) name_node args p =
    command_parts deeper cs name_node (args ++ n ∷ []) p
command_parts deeper (child unnamed true n cs) name_node args p =
    command_parts deeper cs name_node args (deeper.visit n p)

abbrev pub inner_name : Option Node → Option Node
inner_name none = none
inner_name (some n) = first_named n

-- The structural flags that `visit` sets at a node that is no command.
unfoldable pub mark : Kind → ShellParse → ShellParse
mark Kind.pipeline p = record p { has_pipeline = true }
mark Kind.command_substitution p = record p { has_command_substitution = true }
mark Kind.process_substitution p = record p { has_command_substitution = true }
mark Kind.file_redirect p = record p { has_redirection = true }
mark Kind.heredoc_redirect p = record p { has_redirection = true }
mark Kind.herestring_redirect p = record p { has_redirection = true }
mark k p = p

module _ (u : Unicode) where
  file_flag_or_arg : Text → Node → Text → Bool → ShellParse → Bool × ShellParse
  file_flag_or_arg prog arg text positional_only p =
      if positional_only
      then (true, insert_arg u prog text (raw_windows_path_source arg) p)
      else if text_eq text (codes "--")
      then (true, p)
      else if not (is_flag_token text)
      then (false, insert_arg u prog text (raw_windows_path_source arg) p)
      else (false, insert_flag u prog text p)

  -- `classify_arg`: the new `positional_only` and the parse.
  unfoldable pub classify_arg : Walker → Text → Node → Bool → ShellParse → Bool × ShellParse
  unfolding file_flag_or_arg
  classify_arg deeper prog arg positional_only p = elim (literal_text arg) [
    | none ↦ (positional_only, deeper.visit arg p)
    | some text ↦ file_flag_or_arg prog arg text positional_only p
  ]

  -- The loop of `classify_args`; `skip` counts down to the argument to leave out.
  unfoldable pub classify_args :
      Walker → Text → Option ℕ → Bool → List Node → ShellParse → ShellParse
  classify_args deeper prog skip positional_only [] p = p
  classify_args deeper prog (some zero) positional_only (arg ∷ args) p =
      classify_args deeper prog none positional_only args p
  classify_args deeper prog (some (suc k)) positional_only (arg ∷ args) p =
      let (only, p') = classify_arg deeper prog arg positional_only p in
      classify_args deeper prog (some k) only args p'
  classify_args deeper prog none positional_only (arg ∷ args) p =
      let (only, p') = classify_arg deeper prog arg positional_only p in
      classify_args deeper prog none only args p'

  -- The part of the round behind the option tests.
  peel_positional : Walker → Wrapper → ℕ → Bool → Node → Text → List Node → ShellParse → PeelStep
  peel_positional deeper w (suc skip) ended arg text rest p =
      next false skip ended (insert_arg u w.name text (raw_windows_path_source arg) p)
  peel_positional deeper w zero ended arg text rest p =
      let nested = normalize_program u text in
      if is_empty nested
      then next false 0 ended (insert_arg u w.name text (raw_windows_path_source arg) p)
      else stop (insert_program nested (deeper.classify nested rest p))

  peel_option : Walker → Wrapper → ℕ → Node → Text → List Node → ShellParse → PeelStep
  peel_option deeper w skip arg text rest p =
      if text_eq text (codes "--")
      then next false skip true p
      else if text_eq w.name (codes "env") && is_env_assignment text
      then next false skip false p
      else if is_flag_token text
      then (if wrapper_flag_consumes_value w text
          then next true skip false (visit_value deeper rest (insert_flag u w.name text p))
          else next false skip false (insert_flag u w.name text p))
      else peel_positional deeper w skip false arg text rest p

  -- One round of the loop of `peel_wrapper`.
  unfoldable pub peel_token : Walker → Wrapper → ℕ → Bool → Node → List Node → ShellParse → PeelStep
  unfolding peel_option peel_positional visit_value
  peel_token deeper w skip ended arg rest p = elim (literal_text arg) [
    | none ↦ stop (mine_args deeper (arg ∷ rest) (record p { has_dynamic_command = true }))
    | some text ↦
        if ended
        then peel_positional deeper w skip true arg text rest p
        else peel_option deeper w skip arg text rest p
  ]

  -- The loop of `peel_wrapper`; the first Boolean says that the token is a value already consumed.
  unfoldable pub peel_from :
      Walker → Wrapper → Bool → ℕ → Bool → List Node → ShellParse → ShellParse
  peel_from deeper w skip_value skip ended [] p = p
  peel_from deeper w true skip ended (arg ∷ rest) p = peel_from deeper w false skip ended rest p
  peel_from deeper w false skip ended (arg ∷ rest) p =
      elim (peel_token deeper w skip ended arg rest p) [
        | stop q ↦ q
        | next skip_value skip' ended' q ↦ peel_from deeper w skip_value skip' ended' rest q
      ]

  unfoldable pub peel_wrapper : Walker → Wrapper → List Node → ShellParse → ShellParse
  unfolding peel_from peel_token
  peel_wrapper deeper w args p =
      peel_from deeper w false (if text_eq w.name (codes "timeout") then 1 else 0) false args p

  -- A shell that runs a literal `-c` script, or any other program.
  unfoldable pub classify_shell : Walker → Reparse → Text → List Node → ShellParse → ShellParse
  unfolding find_c_script reparse_script classify_args classify_arg
  classify_shell deeper reparse prog args p = elim (find_c_script args) [
    | none ↦ classify_args deeper prog none false args p
    | some (idx, script) ↦
        classify_args deeper prog (some idx) false args (reparse_script reparse script p)
  ]

  unfoldable pub classify_invocation : Walker → Reparse → Text → List Node → ShellParse → ShellParse
  unfolding classify_shell handle_eval eval_parts literal_parts_of peel_wrapper
  classify_invocation deeper reparse prog args p = elim (wrapper_spec prog) [
    | some w ↦ peel_wrapper deeper w args p
    | none ↦
        if text_eq prog (codes "eval")
        then handle_eval deeper reparse args p
        else if is_shell prog
        then classify_shell deeper reparse prog args p
        else classify_args deeper prog none false args p
  ]

  -- The command by its literal name.
  unfoldable pub named_command : Walker → Reparse → Text → List Node → ShellParse → ShellParse
  unfolding classify_invocation
  named_command deeper reparse text args p =
      let prog = normalize_program u text in
      if is_empty prog
      then mine_args deeper args p
      else insert_program prog (classify_invocation deeper reparse prog args p)

  unfoldable pub command_with_name :
      Walker → Reparse → Option Node → List Node → ShellParse → ShellParse
  unfolding named_command mine_args
  command_with_name deeper reparse none args p = mine_args deeper args p
  command_with_name deeper reparse (some inner) args p = elim (literal_text inner) [
    | none ↦ mine_args deeper args (deeper.visit inner (record p { has_dynamic_command = true }))
    | some text ↦ named_command deeper reparse text args p
  ]

  unfoldable pub handle_command : Walker → Reparse → Children → ShellParse → ShellParse
  unfolding command_parts command_with_name
  handle_command deeper reparse cs p =
      let (name_node, args, p') = command_parts deeper cs none [] p in
      command_with_name deeper reparse (inner_name name_node) args p'

  unfoldable pub visit : Walker → Reparse → Node → ShellParse → ShellParse
  unfolding handle_command mark mine_args
  visit deeper reparse (node Kind.command t cs) p = handle_command deeper reparse cs p
  visit deeper reparse (node k t cs) p = mine_args deeper (named cs) (mark k p)

  -- The walk with `room` levels left.
  unfoldable pub walker : Reparse → ℕ → Walker
  unfolding visit
  walker reparse zero = stopped
  walker reparse (suc room) =
      let deeper = walker reparse room in
      record {
        visit = λ n p. visit deeper reparse n p;
        classify = λ prog args p. classify_invocation deeper reparse prog args p;
      }

  module _ (parse : Text → Option Tree) where
    unfoldable pub parse_tree : Reparse → Option Tree → ShellParse
    unfolding walker
    parse_tree reparse none = empty
    parse_tree reparse (some tree) =
        (walker reparse (suc max_tree_depth)).visit tree.root
          (record empty { ok = not tree.has_error })

    unfoldable pub parse_once : Reparse → Text → ShellParse
    unfolding parse_tree
    parse_once reparse command =
        if ltb max_command_bytes (length (as_bytes command))
        then empty
        else parse_tree reparse (parse command)

    -- `parse_with_depth` with so many re-parses left.
    unfoldable pub parse_with_depth : ℕ → Text → ShellParse
    unfolding parse_once
    parse_with_depth zero command = parse_once none command
    parse_with_depth (suc left) command = parse_once (some (parse_with_depth left)) command

    unfoldable pub analyze_shell_command : Text → ShellParse
    unfolding parse_with_depth
    analyze_shell_command command = parse_with_depth max_reparse_depth command
