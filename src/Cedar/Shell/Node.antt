-- ===== src/Cedar/Shell/Node.antt =====
-- The syntax tree that tree-sitter-bash returns, as the walk of
-- crates/policy/cedar/src/shell_parse.rs reads it, and `literal_text`.
use sondera_coding_agent_hoo.Prelude.{
  Bool, true, false, Option, none, some, List, [], ◌∷◌, ◌++◌, if◌then◌else◌,
}
use sondera_coding_agent_hoo.Prelude.Text.{Text, strip_prefix, strip_suffix}
use sondera_coding_agent_hoo.Cedar.Shell.Words.{
  unescape_unquoted_word, unescape_double_quoted, looks_like_raw_windows_path,
}
use sondera_coding_agent_hoo.Cedar.Shell.Ansi.{unescape_ansi_c}

-- The node kinds that the walk names.
pub data Kind : Type 0 where
  word number raw_string ansi_c_string string string_content concatenation : Kind
  command command_name pipeline command_substitution process_substitution : Kind
  file_redirect heredoc_redirect herestring_redirect other : Kind

-- The field of a child in its parent.
pub data Field : Type 0 where
  name argument unnamed : Field

-- A node has its kind, its source text (`none` where `utf8_text` fails) and its children; a child
-- has its field, and whether it is a named node.
mutual
  pub data Node : Type 0 where
    node : Kind → Option Text → Children → Node

  pub data Children : Type 0 where
    nil : Children
    child : Field → Bool → Node → Children → Children

-- A parse: the root, and `root.has_error()`.
pub record Tree : Type 0 where
  pub root : Node
  pub has_error : Bool

abbrev pub kind : Node → Kind
kind (node k t cs) = k

abbrev pub node_text : Node → Option Text
node_text (node k t cs) = t

abbrev pub children : Node → Children
children (node k t cs) = cs

unfoldable pub named : Children → List Node
named nil = []
named (child f true n cs) = n ∷ named cs
named (child f false n cs) = named cs

-- `node.named_child(0)`.
first_child : Children → Option Node
first_child nil = none
first_child (child f true n rest) = some n
first_child (child f false n rest) = first_child rest

unfoldable pub first_named : Node → Option Node
unfolding first_child
first_named (node k t cs) = first_child cs

has_named : Children → Bool
has_named nil = false
has_named (child f true n cs) = true
has_named (child f false n cs) = has_named cs

only_content : Children → Bool
only_content nil = true
only_content (child f false n cs) = only_content cs
only_content (child f true (node string_content t inner) cs) = only_content cs
only_content (child f true n cs) = false

-- The text without its delimiters, or the whole text where one of them is missing.
unquote : Text → Text → Text → Text
unquote start end text = elim (strip_prefix text start) [
  | none ↦ text
  | some s ↦ elim (strip_suffix s end) [ none ↦ text | some inner ↦ inner ]
]

abbrev quote : Text
quote = 0x27 ∷ []

abbrev double_quote : Text
double_quote = b'"' ∷ []

ansi_c_text : Text → Text
ansi_c_text text = elim (strip_prefix text (b'$' ∷ quote)) [
  | none ↦ text
  | some s ↦ elim (strip_suffix s quote) [ none ↦ text | some inner ↦ unescape_ansi_c inner ]
]

abbrev map_text : (Text → Text) → Option Text → Option Text
map_text f none = none
map_text f (some t) = some (f t)

-- `content.push_str(&literal_text(child, src)?)`.
abbrev and_append : Option Text → Option Text → Option Text
and_append none rest = none
and_append (some s) none = none
and_append (some s) (some t) = some (s ++ t)

unfoldable mutual
  unfolding unquote ansi_c_text has_named only_content

  pub literal_text : Node → Option Text
  literal_text (node word t cs) = map_text unescape_unquoted_word t
  literal_text (node number t cs) = if has_named cs then none else map_text unescape_unquoted_word t
  literal_text (node raw_string t cs) = map_text (unquote quote quote) t
  literal_text (node ansi_c_string t cs) = map_text ansi_c_text t
  literal_text (node string t cs) =
      if only_content cs
      then map_text (λ s. unescape_double_quoted (unquote double_quote double_quote s)) t
      else none
  literal_text (node concatenation t cs) = literal_parts cs
  literal_text (node k t cs) = none

  pub literal_parts : Children → Option Text
  literal_parts nil = some []
  literal_parts (child f true n cs) = and_append (literal_text n) (literal_parts cs)
  literal_parts (child f false n cs) = literal_parts cs

raw_windows_text : Option Text → Option Text
raw_windows_text none = none
raw_windows_text (some text) = if looks_like_raw_windows_path text then some text else none

unfoldable pub raw_windows_path_source : Node → Option Text
unfolding raw_windows_text
raw_windows_path_source (node word t cs) = raw_windows_text t
raw_windows_path_source (node number t cs) = raw_windows_text t
raw_windows_path_source (node k t cs) = none
