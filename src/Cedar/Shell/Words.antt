-- ===== src/Cedar/Shell/Words.antt =====
-- The word-level helpers of crates/policy/cedar/src/shell_parse.rs: quote removal, program names,
-- environment assignments and the Windows-path heuristic.
pub mod Quoting
use sondera_coding_agent_hoo.Prelude.{
  ℕ, Bool, true, false, not, ◌&&◌, ◌||◌, Option, none, some, List, [], ◌∷◌, ◌==◌, all,
  if◌then◌else◌,
}
use sondera_coding_agent_hoo.Prelude.Text.{
  Text, codes, is_empty, split, last_piece, split_once, strip_prefix, strip_suffix, starts_with,
  is_ascii_alphabetic, is_ascii_alphanumeric, is_ascii_digit,
}
use sondera_coding_agent_hoo.Prelude.Unicode.{Unicode, text_to_lowercase}

abbrev pub backslash : ℕ
backslash = 0x5c

abbrev pub newline : ℕ
newline = 0x0a

unfoldable pub unescape_unquoted_word : Text → Text
unescape_unquoted_word [] = []
unescape_unquoted_word (ch ∷ []) = if ch == backslash then backslash ∷ [] else ch ∷ []
unescape_unquoted_word (ch ∷ next ∷ rest) =
    let behind = unescape_unquoted_word rest in
    let plain = unescape_unquoted_word (next ∷ rest) in
    if ch == backslash then (if next == newline then behind else next ∷ behind) else ch ∷ plain

-- The characters that a backslash escapes inside double quotes.
abbrev pub is_special : ℕ → Bool
is_special c = c == b'"' || c == backslash || c == b'$' || c == b'`'

unfoldable pub unescape_double_quoted : Text → Text
unescape_double_quoted [] = []
unescape_double_quoted (ch ∷ []) = if ch == backslash then backslash ∷ [] else ch ∷ []
unescape_double_quoted (ch ∷ next ∷ rest) =
    let behind = unescape_double_quoted rest in
    let plain = unescape_double_quoted (next ∷ rest) in
    if ch == backslash
    then (if next == newline
        then behind
        else if is_special next
        then next ∷ behind
        else backslash ∷ next ∷ behind)
    else ch ∷ plain

starts_with_digit : Text → Bool
starts_with_digit [] = false
starts_with_digit (c ∷ s) = is_ascii_digit c

unfoldable pub is_env_assignment : Text → Bool
unfolding starts_with_digit
is_env_assignment text = elim (split_once text b'=') [
  | some (name, _) ↦
      not (is_empty name)
      && not (starts_with_digit name)
      && all (λ c. is_ascii_alphanumeric c || c == b'_') name
  | none ↦ false
]

abbrev is_path_separator : ℕ → Bool
is_path_separator c = c == b'/' || c == backslash

-- Basename, lower case, and no trailing `.exe`.
unfoldable pub normalize_program : Unicode → Text → Text
normalize_program u text =
    let basename = text_to_lowercase u (last_piece is_path_separator text) in
    elim (strip_suffix basename (codes ".exe")) [ none ↦ basename | some stem ↦ stem ]

-- The tests on the first byte of a component; a byte of a longer character passes neither.
unfoldable pub can_precede_separator : Text → Bool
can_precede_separator [] = false
can_precede_separator (c ∷ s) = is_ascii_alphanumeric c || c == b'.' || c == b'_'

unfoldable pub can_follow_separator : Text → Bool
can_follow_separator [] = false
can_follow_separator (c ∷ s) = is_ascii_alphanumeric c || c == b'_' || c == b'*' || c == b'?'

-- The loop over the components behind the first.
unfoldable pub windows_components : Text → List Text → Bool
unfolding can_precede_separator can_follow_separator
windows_components previous [] = false
windows_components previous (current ∷ rest) =
    let later = windows_components current rest in
    if is_empty current
    then false
    else if can_precede_separator previous && can_follow_separator current
    then true
    else later

from_components : List Text → Bool
from_components [] = false
from_components (first ∷ rest) = if is_empty first then false else windows_components first rest

unfoldable pub looks_like_relative_windows_path : Text → Bool
unfolding windows_components from_components
looks_like_relative_windows_path text = from_components (split (λ c. c == backslash) text)

has_drive_prefix : Text → Bool
has_drive_prefix (a ∷ b ∷ c ∷ s) =
    is_ascii_alphabetic a && b == b':' && (c == backslash || c == b'/')
has_drive_prefix _ = false

behind_backslash : Option Text → Bool
behind_backslash none = false
behind_backslash (some rest) = looks_like_relative_windows_path rest

unfoldable pub looks_like_raw_windows_path : Text → Bool
unfolding looks_like_relative_windows_path has_drive_prefix behind_backslash
looks_like_raw_windows_path text =
    starts_with text (backslash ∷ backslash ∷ [])
    || starts_with text (b'.' ∷ backslash ∷ [])
    || starts_with text (b'.' ∷ b'.' ∷ backslash ∷ [])
    || behind_backslash (strip_prefix text (backslash ∷ []))
    || looks_like_relative_windows_path text
    || has_drive_prefix text
