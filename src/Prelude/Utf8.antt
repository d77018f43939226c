-- ===== src/Prelude/Utf8.antt =====
-- `String::from_utf8_lossy`: each maximal part of a character that breaks off becomes U+FFFD.
use Prim.Native.Nat.{ℕ, zero, suc, ◌+◌, ◌-◌, ◌*◌}
use mathlib.Core.Bool.{Bool, ◌&&◌}
use mathlib.Core.List.{List, [], ◌∷◌}
use sondera_coding_agent_hoo.Prelude.Tests.{ltb, leb, ◌==◌, if◌then◌else◌}
use sondera_coding_agent_hoo.Prelude.Text.{Text}

-- A decoded character with the number of bytes that it takes behind its first byte.
abbrev replacement : ℕ → ℕ × ℕ
replacement k = (0xfffd, k)

abbrev in_range : ℕ → ℕ → ℕ → Bool
in_range lo hi b = leb lo b && leb b hi

abbrev byte_at : List ℕ → ℕ → ℕ
byte_at [] i = 0
byte_at (b ∷ s) zero = b
byte_at (b ∷ s) (suc i) = byte_at s i

-- A missing byte reads as 0, which continues no character.
abbrev continues : List ℕ → ℕ → Bool
continues s i = in_range 0x80 0xbf (byte_at s i)

abbrev second_min : ℕ → ℕ
second_min b = if b == 0xe0 then 0xa0 else if b == 0xf0 then 0x90 else 0x80

abbrev second_max : ℕ → ℕ
second_max b = if b == 0xed then 0x9f else if b == 0xf4 then 0x8f else 0xbf

decode_two : ℕ → List ℕ → ℕ × ℕ
decode_two b s =
    if continues s 0 then ((b - 0xc0) * 64 + (byte_at s 0 - 0x80), 1) else replacement 0

decode_three : ℕ → List ℕ → ℕ × ℕ
decode_three b s =
    if in_range (second_min b) (second_max b) (byte_at s 0)
    then (if continues s 1
        then ((b - 0xe0) * 4096 + (byte_at s 0 - 0x80) * 64 + (byte_at s 1 - 0x80), 2)
        else replacement 1)
    else replacement 0

decode_four : ℕ → List ℕ → ℕ × ℕ
decode_four b s =
    if in_range (second_min b) (second_max b) (byte_at s 0)
    then (if continues s 1
        then (if continues s 2
            then (
              (b - 0xf0) * 262144
                  + (byte_at s 0 - 0x80) * 4096
                  + (byte_at s 1 - 0x80) * 64
                  + (byte_at s 2 - 0x80),
              3,
            )
            else replacement 2)
        else replacement 1)
    else replacement 0

unfoldable pub decode_char : ℕ → List ℕ → ℕ × ℕ
unfolding decode_two decode_three decode_four
decode_char b s =
    if ltb b 0x80
    then (b, 0)
    else if in_range 0xc2 0xdf b
    then decode_two b s
    else if in_range 0xe0 0xef b
    then decode_three b s
    else if in_range 0xf0 0xf4 b
    then decode_four b s
    else replacement 0

-- The number counts the bytes that the character before has taken.
unfoldable pub decode_from : ℕ → List ℕ → Text
decode_from taken [] = []
decode_from (suc taken) (b ∷ s) = decode_from taken s
decode_from zero (b ∷ s) = (decode_char b s).0 ∷ decode_from (decode_char b s).1 s

unfoldable pub from_utf8_lossy : List ℕ → Text
unfolding decode_from decode_char
from_utf8_lossy s = decode_from 0 s
