-- ===== src/Cedar/Shell/Ansi/Laws.antt =====
-- Bounds of the digit reader, and decoding undoes the hexadecimal quoting of bytes.
use sondera_coding_agent_hoo.Prelude.{
  ℕ, zero, suc, ◌+◌, ◌*◌, ◌/◌, ◌%◌, ◌^◌, ◌≤◌, ◌<◌, ◌≡◌, refl, ap, ◌∙◌, Option, none, some, List, [],
  ◌∷◌, arith, ltb, if◌then◌else◌, All, Option-cases, inl, inr,
}
use native.Mathlib.Nat.{pow-suc}
use native.Mathlib.Numerals.{add-one}
use sondera_coding_agent_hoo.Prelude.Text.{codes}
use sondera_coding_agent_hoo.Cedar.Shell.Words.{backslash}
use sondera_coding_agent_hoo.Cedar.Shell.Ansi.{
  hex_digit, take_digits, take_hex, hex_escape, ansi_step, unescape_bytes, unescape_ansi_c,
}

hex_char : ℕ → ℕ
hex_char d = if ltb d 10 then d + b'0' else d + 87

hex_digit-hex_char : (d : ℕ) → d < 16 → hex_digit (hex_char d) ≡ some d
unfolding hex_digit hex_char
hex_digit-hex_char d h = ground arith

-- `\xHH` for each byte.
pub quote_bytes : List ℕ → List ℕ
quote_bytes [] = []
quote_bytes (b ∷ s) = backslash ∷ b'x' ∷ hex_char (b / 16) ∷ hex_char (b % 16) ∷ quote_bytes s

module _ (digit : ℕ → Option ℕ) (radix max c : ℕ) (src : List ℕ) (value digits : ℕ) where
  take_digits-some :
      {d : ℕ}
      → digit c ≡ some d
      → take_digits digit radix (suc max) (c ∷ src) value digits
        ≡ take_digits digit radix max src (value * radix + d) (digits + 1)
  unfolding take_digits
  take_digits-some e = rw (e, take_digits) refl

  take_digits-none :
      digit c ≡ none → take_digits digit radix (suc max) (c ∷ src) value digits ≡ (value, digits)
  unfolding take_digits
  take_digits-none e = rw (e, take_digits) refl

take_digits_zero :
    (src : List ℕ) (value digits : ℕ)
    → take_digits hex_digit 16 0 src value digits ≡ (value, digits)
unfolding take_digits
take_digits_zero src value digits = refl

take_hex_pair :
    (b : ℕ) (s : List ℕ) → b < 256 → take_hex (hex_char (b / 16) ∷ hex_char (b % 16) ∷ s) 2 ≡ (b, 2)
unfolding take_hex
take_hex_pair b s h =
    take_digits-some hex_digit 16 1 (hex_char (b / 16)) (hex_char (b % 16) ∷ s) 0 0
      (hex_digit-hex_char (b / 16) (omega arith))
    ∙ take_digits-some hex_digit 16 0 (hex_char (b % 16)) s (0 * 16 + b / 16) (0 + 1)
        (hex_digit-hex_char (b % 16) (omega arith))
    ∙ take_digits_zero s _ _
    ∙ ground arith

ansi_step_hex :
    (b : ℕ) (s : List ℕ)
    → b < 256
    → ansi_step backslash (b'x' ∷ hex_char (b / 16) ∷ hex_char (b % 16) ∷ s) ≡ (b ∷ [], 3)
unfolding ansi_step
ansi_step_hex b s h = rw (take_hex_pair b s h, hex_escape) (ground arith)

-- Every list of bytes, each below 256, written as `\xHH` escapes, is decoded to itself.
pub unescape_bytes-quote_bytes :
    (s : List ℕ) → All (λ b. b < 256) s → unescape_bytes 0 (quote_bytes s) ≡ s
unfolding unescape_bytes quote_bytes
unescape_bytes-quote_bytes [] h = refl
unescape_bytes-quote_bytes (b ∷ s) (h, hs) =
    rw (ansi_step_hex b (quote_bytes s) h) (ap (λ t. b ∷ t) (unescape_bytes-quote_bytes s hs))

hex_digit-lt : (c : ℕ) {d : ℕ} → hex_digit c ≡ some d → d < 16
unfolding hex_digit
hex_digit-lt c h = ground arith

take_digits_bounds :
    (max : ℕ) (src : List ℕ) (value digits : ℕ)
    → value < 16 ^ digits
    → ((take_digits hex_digit 16 max src value digits).0
        < 16 ^ (take_digits hex_digit 16 max src value digits).1)
      × ((take_digits hex_digit 16 max src value digits).1 ≤ digits + max)
unfolding take_digits
take_digits_bounds zero src value digits h = (h, omega arith)
take_digits_bounds (suc max) [] value digits h = (h, omega arith)
take_digits_bounds (suc max) (c ∷ src) value digits h = elim (Option-cases (hex_digit c)) [
  | inl e ↦ rw (take_digits-none hex_digit 16 max c src value digits e) (h, omega arith)
  | inr (d, e) ↦ rw (take_digits-some hex_digit 16 max c src value digits e) (
      let p : value * 16 + d < 16 ^ (digits + 1) =
        rw (add-one digits) (rw (pow-suc 16 digits) (omega (arith, hex_digit-lt c e))) in
      let (lt, le) = take_digits_bounds max src (value * 16 + d) (digits + 1) p in
      (lt, omega arith))
]

-- The value read by `take_hex` has at most `max` digits and fits them.
pub take_hex_bounds :
    (src : List ℕ) (max : ℕ)
    → ((take_hex src max).0 < 16 ^ (take_hex src max).1) × ((take_hex src max).1 ≤ max)
unfolding take_hex
take_hex_bounds src max =
    let (lt, le) = take_digits_bounds max src 0 0 (omega arith) in (lt, omega arith)

ansi_test :
    unescape_ansi_c (codes "~/.aws/cred\\x65nt\\u0069al\\163\\n\\q")
    ≡ codes "~/.aws/credentials\n\\q"
unfolding unescape_ansi_c
ansi_test = refl

ansi_test2 : unescape_ansi_c (codes "caf\\xc3\\xa9") ≡ codes "café"
unfolding unescape_ansi_c
ansi_test2 = refl
