-- ===== src/Cedar/Shell/Record.antt =====
-- `ShellParse` of crates/policy/cedar/src/shell_parse.rs and the operations that fill it.
pub mod Order
pub mod Growth
use sondera_coding_agent_hoo.Prelude.{
  ℕ, Bool, true, false, not, ◌&&◌, ◌||◌, Option, none, some, List, [], ◌∷◌, ◌++◌, map, ◌==◌, all,
  if◌then◌else◌,
}
use sondera_coding_agent_hoo.Prelude.Text.{
  Text, codes, text_eq, is_empty, split, split_once, strip_prefix, scoped, is_ascii_alphabetic,
}
use sondera_coding_agent_hoo.Prelude.Sets.{set_insert, set_extend}
use sondera_coding_agent_hoo.Prelude.Unicode.{Unicode}
use sondera_coding_agent_hoo.Cedar.Path.{normalize_path_value}

-- `ShellScan` wraps one `ShellParse` and is not kept apart from it.
pub record ShellParse : Type 0 where
  pub ok : Bool
  pub programs : List Text
  pub program_flags : List Text
  pub program_flags_normalized : List Text
  pub program_args : List Text
  pub program_args_normalized : List Text
  pub program_arg_path_components_normalized : List Text
  pub has_dynamic_command : Bool
  pub has_command_substitution : Bool
  pub has_pipeline : Bool
  pub has_redirection : Bool

-- `ShellParse::default()`.
abbrev pub empty : ShellParse
empty = record {
  ok = false;
  programs = [];
  program_flags = [];
  program_flags_normalized = [];
  program_args = [];
  program_args_normalized = [];
  program_arg_path_components_normalized = [];
  has_dynamic_command = false;
  has_command_substitution = false;
  has_pipeline = false;
  has_redirection = false;
}

unfoldable pub merge : ShellParse → ShellParse → ShellParse
merge p q = record {
  ok = p.ok && q.ok;
  programs = set_extend p.programs q.programs;
  program_flags = set_extend p.program_flags q.program_flags;
  program_flags_normalized = set_extend p.program_flags_normalized q.program_flags_normalized;
  program_args = set_extend p.program_args q.program_args;
  program_args_normalized = set_extend p.program_args_normalized q.program_args_normalized;
  program_arg_path_components_normalized =
      set_extend p.program_arg_path_components_normalized q.program_arg_path_components_normalized;
  has_dynamic_command = p.has_dynamic_command || q.has_dynamic_command;
  has_command_substitution = p.has_command_substitution || q.has_command_substitution;
  has_pipeline = p.has_pipeline || q.has_pipeline;
  has_redirection = p.has_redirection || q.has_redirection;
}

unfoldable pub insert_program : Text → ShellParse → ShellParse
insert_program prog p = record p { programs = set_insert prog p.programs }

insert_components : Text → List Text → List Text → List Text
insert_components prog [] s = s
insert_components prog (c ∷ cs) s =
    insert_components prog cs (if is_empty c then s else set_insert (scoped prog c) s)

unfoldable pub insert_normalized_arg_view : Text → Text → ShellParse → ShellParse
unfolding insert_components
insert_normalized_arg_view prog normalized p = record p {
  program_args_normalized = set_insert (scoped prog normalized) p.program_args_normalized;
  program_arg_path_components_normalized =
      insert_components prog (split (λ c. c == b'/') normalized)
        p.program_arg_path_components_normalized;
}

-- The raw companion of an argument that reads as a Windows path, where it differs.
insert_raw_view : Text → Text → Text → ShellParse → ShellParse
insert_raw_view prog normalized raw_normalized p =
    if text_eq raw_normalized normalized
    then p
    else insert_normalized_arg_view prog raw_normalized p

unfoldable pub insert_arg : Unicode → Text → Text → Option Text → ShellParse → ShellParse
unfolding insert_raw_view
insert_arg u prog text raw p =
    let filed = record p { program_args = set_insert (scoped prog text) p.program_args } in
    let normalized = normalize_path_value u text in
    let viewed = insert_normalized_arg_view prog normalized filed in
    elim raw [
      | none ↦ viewed
      | some source ↦ insert_raw_view prog normalized (normalize_path_value u source) viewed
    ]

insert_flag_as : Text → Text → Text → ShellParse → ShellParse
insert_flag_as prog flag normalized p = record p {
  program_flags = set_insert (scoped prog flag) p.program_flags;
  program_flags_normalized = set_insert (scoped prog normalized) p.program_flags_normalized;
}

-- The loop over the letters of a short cluster.
insert_singletons : Unicode → Text → Text → ShellParse → ShellParse
insert_singletons u prog [] p = p
insert_singletons u prog (c ∷ cs) p =
    let singleton : Text = b'-' ∷ c ∷ [] in
    insert_singletons u prog cs (insert_flag_as prog singleton (normalize_path_value u singleton) p)

abbrev long_name : Text → Text
long_name rest = elim (split_once rest b'=') [ none ↦ rest | some (name, _) ↦ name ]

insert_short : Unicode → Text → Text → ShellParse → ShellParse
insert_short u prog text p =
    let kept = insert_flag_as prog text (normalize_path_value u text) p in
    elim (strip_prefix text (b'-' ∷ [])) [
      | none ↦ kept
      | some body ↦
          if not (is_empty body) && all is_ascii_alphabetic body
          then insert_singletons u prog body kept
          else kept
    ]

unfoldable pub insert_flag : Unicode → Text → Text → ShellParse → ShellParse
unfolding insert_short insert_flag_as insert_singletons
insert_flag u prog text p = elim (strip_prefix text (b'-' ∷ b'-' ∷ [])) [
  | some rest ↦
      insert_flag_as prog (b'-' ∷ b'-' ∷ long_name rest)
        (b'-' ∷ b'-' ∷ normalize_path_value u (long_name rest)) p
  | none ↦ insert_short u prog text p
]
