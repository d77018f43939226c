-- ===== src/Cedar/Path.antt =====
-- crates/policy/cedar/src/path_normalize.rs: lexical path normalisation.
pub mod Laws
use sondera_coding_agent_hoo.Prelude.{
  ℕ, ◌≡◌, refl, Bool, true, false, Option, none, some, List, [], ◌∷◌, ◌++◌, ◌==◌, if◌then◌else◌,
}
use sondera_coding_agent_hoo.Prelude.Text.{Text, codes, strip_prefix}
use sondera_coding_agent_hoo.Prelude.Unicode.{Unicode, to_lowercase, ascii_only}

-- The loop over the characters; the Boolean is `last_was_slash`.
unfoldable pub normalize_from : Unicode → Bool → Text → Text
normalize_from u last [] = []
normalize_from u last (c ∷ s) =
    let ch : ℕ = if c == 0x5c then b'/' else c in
    let after_slash = normalize_from u true s in
    let after_other = normalize_from u false s in
    if ch == b'/'
    then (if last then after_slash else b'/' ∷ after_slash)
    else to_lowercase u ch ++ after_other

-- `\\?\` and `\\.\`, the two Windows prefixes.
abbrev verbatim_prefix : Text
verbatim_prefix = 0x5c ∷ 0x5c ∷ b'?' ∷ 0x5c ∷ []

abbrev device_prefix : Text
device_prefix = 0x5c ∷ 0x5c ∷ b'.' ∷ 0x5c ∷ []

unfoldable pub strip_windows_prefix : Text → Text
strip_windows_prefix path = elim (strip_prefix path verbatim_prefix) [
  | some rest ↦ rest
  | none ↦ elim (strip_prefix path device_prefix) [ some rest ↦ rest | none ↦ path ]
]

unfoldable pub normalize_path_value : Unicode → Text → Text
unfolding normalize_from strip_windows_prefix
normalize_path_value u path = normalize_from u false (strip_windows_prefix path)

normalize_path_value_windows :
    normalize_path_value ascii_only (codes "\\\\?\\C:\\Users\\Alice\\\\.AWS\\credentials")
    ≡ codes "c:/users/alice/.aws/credentials"
unfolding normalize_path_value strip_prefix to_lowercase
normalize_path_value_windows = refl
