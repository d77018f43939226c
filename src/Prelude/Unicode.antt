-- ===== src/Prelude/Unicode.antt =====
-- `char::to_lowercase` and `str::to_lowercase`. The ASCII part is written out; the tables for the
-- other characters belong to the Rust standard library and are a parameter.
use sondera_coding_agent_hoo.Prelude.Tests.{ltb, if◌then◌else◌, all, All}
use sondera_coding_agent_hoo.Prelude.Text.{Text, is_ascii_upper}
use Prim.Native.Nat.{ℕ, ◌+◌, ◌≤◌}
use mathlib.Core.Path.{◌≡◌}
use mathlib.Core.Logic.{◌≢◌}
use mathlib.Core.List.{[], ◌∷◌, map}

pub record Unicode : Type 0 where
  -- The lower-case mapping of one character that is not ASCII.
  pub lower : ℕ → Text
  -- The lower-case mapping of a text that holds such a character.
  pub lower_text : Text → Text

abbrev pub ascii_lower : ℕ → ℕ
ascii_lower c = if is_ascii_upper c then c + 32 else c

unfoldable pub to_lowercase : Unicode → ℕ → Text
to_lowercase u c = if ltb c 128 then ascii_lower c ∷ [] else u.lower c

unfoldable pub text_to_lowercase : Unicode → Text → Text
text_to_lowercase u s = if all (λ c. ltb c 128) s then map ascii_lower s else u.lower_text s

-- What the tables guarantee: a lower-case mapping is lower case, is not empty and holds no
-- path separator.
pub record IsTable (u : Unicode) : Type 0 where
  pub fixed : (c : ℕ) → 128 ≤ c → All (λ d. to_lowercase u d ≡ d ∷ []) (u.lower c)
  pub occupied : (c : ℕ) → 128 ≤ c → u.lower c ≢ []
  pub no_slash : (c : ℕ) → 128 ≤ c → All (λ d. (d ≢ b'/') × (d ≢ 0x5c)) (u.lower c)

-- Tables that map nothing outside ASCII.
abbrev pub ascii_only : Unicode
ascii_only = record { lower = λ c. c ∷ []; lower_text = λ s. s }
