-- ===== src/Cedar/Shell/Ansi.antt =====
-- `take_hex` and `unescape_ansi_c` of crates/policy/cedar/src/shell_parse.rs: the body of `$'…'`.
pub mod Laws
use sondera_coding_agent_hoo.Prelude.{
  ℕ, zero, suc, ◌+◌, ◌-◌, ◌*◌, ◌%◌, Bool, true, false, ◌&&◌, ◌||◌, Option, none, some, List, [],
  ◌∷◌, ◌++◌, ltb, leb, ◌==◌, if◌then◌else◌,
}
use sondera_coding_agent_hoo.Prelude.Text.{Text, as_bytes, encode_utf8, is_ascii_digit}
use sondera_coding_agent_hoo.Prelude.Utf8.{from_utf8_lossy}
use sondera_coding_agent_hoo.Cedar.Shell.Words.{backslash}

-- `char::to_digit(16)`.
unfoldable pub hex_digit : ℕ → Option ℕ
hex_digit c =
    if is_ascii_digit c
    then some (c - b'0')
    else if leb b'a' c && leb c b'f'
    then some (c - b'a' + 10)
    else if leb b'A' c && leb c b'F'
    then some (c - b'A' + 10)
    else none

-- `char::to_digit(8)`.
unfoldable pub octal_digit : ℕ → Option ℕ
octal_digit c = if leb b'0' c && leb c b'7' then some (c - b'0') else none

-- The loop that reads at most `max` digits: the value and the number of digits read so far.
unfoldable pub take_digits : (ℕ → Option ℕ) → ℕ → ℕ → List ℕ → ℕ → ℕ → ℕ × ℕ
take_digits digit radix zero src value digits = (value, digits)
take_digits digit radix (suc max) [] value digits = (value, digits)
take_digits digit radix (suc max) (c ∷ src) value digits = elim (digit c) [
  | none ↦ (value, digits)
  | some d ↦ take_digits digit radix max src (value * radix + d) (digits + 1)
]

unfoldable pub take_hex : List ℕ → ℕ → ℕ × ℕ
unfolding take_digits
take_hex src max = take_digits hex_digit 16 max src 0 0

-- `char::from_u32`.
unfoldable pub from_u32 : ℕ → Option ℕ
from_u32 v =
    if ltb v 0x110000 then (if leb 0xd800 v && leb v 0xdfff then none else some v) else none

abbrev take : ℕ → List ℕ → List ℕ
take zero src = []
take (suc n) [] = []
take (suc n) (b ∷ src) = b ∷ take n src

-- The bytes that an escape stands for, and how many bytes behind the selector it takes.
abbrev Decoded : Type 0
Decoded = List ℕ × ℕ

abbrev verbatim : ℕ → List ℕ
verbatim selector = backslash ∷ selector ∷ []

unfoldable pub hex_escape : ℕ → List ℕ → Decoded
unfolding take_hex
hex_escape selector src =
    let (value, digits) = take_hex src 2 in
    if digits == 0 then (verbatim selector, 0) else (value % 256 ∷ [], digits)

unicode_escape : ℕ → List ℕ → Decoded
unfolding take_hex from_u32
unicode_escape selector src =
    let (value, digits) = take_hex src (if selector == b'u' then 4 else 8) in
    let refused : Decoded = (verbatim selector ++ take digits src, digits) in
    if digits == 0
    then refused
    else elim (from_u32 value) [ none ↦ refused | some ch ↦ (encode_utf8 ch, digits) ]

octal_escape : ℕ → List ℕ → Decoded
unfolding take_digits octal_digit
octal_escape selector src =
    let (value, digits) = take_digits octal_digit 8 2 src (selector - b'0') 0 in
    (value % 256 ∷ [], digits)

control_escape : ℕ → List ℕ → Decoded
control_escape selector [] = (verbatim selector, 0)
control_escape selector (x ∷ src) = ((if x == b'?' then 0x7f else x % 32) ∷ [], 1)

-- The escapes that stand for one fixed byte.
unfoldable pub simple_escape : ℕ → Option ℕ
simple_escape s =
    if s == b'a'
    then some 0x07
    else if s == b'b'
    then some 0x08
    else if s == b'e' || s == b'E'
    then some 0x1b
    else if s == b'f'
    then some 0x0c
    else if s == b'n'
    then some 0x0a
    else if s == b'r'
    then some 0x0d
    else if s == b't'
    then some 0x09
    else if s == b'v'
    then some 0x0b
    else if s == backslash || s == 0x27 || s == b'"' || s == b'?'
    then some s
    else none

unfoldable pub ansi_escape : ℕ → List ℕ → Decoded
unfolding hex_escape unicode_escape octal_escape control_escape simple_escape
ansi_escape selector src = elim (simple_escape selector) [
  | some b ↦ (b ∷ [], 0)
  | none ↦
      if selector == b'x'
      then hex_escape selector src
      else if selector == b'u' || selector == b'U'
      then unicode_escape selector src
      else if leb b'0' selector && leb selector b'7'
      then octal_escape selector src
      else if selector == b'c'
      then control_escape selector src
      else (verbatim selector, 0)
]

-- One round of the loop at a byte: what it emits, and how many bytes behind this one it takes.
unfoldable pub ansi_step : ℕ → List ℕ → Decoded
unfolding ansi_escape
ansi_step b [] = (b ∷ [], 0)
ansi_step b (selector ∷ src) =
    if b == backslash
    then (let (bytes, used) = ansi_escape selector src in (bytes, suc used))
    else (b ∷ [], 0)

-- The loop `while i < src.len()`; the number counts the bytes that a round before has taken.
unfoldable pub unescape_bytes : ℕ → List ℕ → List ℕ
unescape_bytes used [] = []
unescape_bytes (suc used) (b ∷ src) = unescape_bytes used src
unescape_bytes zero (b ∷ src) = (ansi_step b src).0 ++ unescape_bytes (ansi_step b src).1 src

unfoldable pub unescape_ansi_c : Text → Text
unfolding unescape_bytes ansi_step hex_digit as_bytes from_utf8_lossy
unescape_ansi_c text = from_utf8_lossy (unescape_bytes 0 (as_bytes text))
