-- ===== src/Hooks/Claude/Truncate/Cut.antt =====
-- Where a text is cut: crates/hooks/claude/src/truncate.rs.
use sondera_coding_agent_hoo.Prelude.{
  ℕ, zero, suc, ◌-◌, ◌≤◌, ◌<◌, Bool, true, false, none, some, [], ◌∷◌, ◌++◌, if◌then◌else◌, leb,
  ◌==◌, ==_iff, length, ◌≡◌, refl, sym, ◌∙◌, ◌⊎◌, ap, inl, inr, Bool-cases, arith,
}
use sondera_coding_agent_hoo.Prelude.Text.{Text, encode_utf8}
use sondera_coding_agent_hoo.Prelude.Lists.{true-false}
use sondera_coding_agent_hoo.Hooks.Claude.Truncate.{
  byte_len, is_char_boundary, floor_boundary, prefix, truncate_event_text, truncation_marker,
}

-- A character takes between one and four bytes.
width_bounds : (c : ℕ) → (1 ≤ length (encode_utf8 c)) × (length (encode_utf8 c) ≤ 4)
unfolding encode_utf8
width_bounds c = ground arith

pub floor_boundary_le : (s : Text) (n : ℕ) → floor_boundary s n ≤ n
unfolding floor_boundary
floor_boundary_le s zero = omega arith
floor_boundary_le s (suc n) = elim (Bool-cases (is_char_boundary s (suc n))) [
  | inl e ↦ rw e (omega arith)
  | inr e ↦ rw e (omega (arith, floor_boundary_le s n))
]

pub floor_boundary-is_char_boundary :
    (s : Text) (n : ℕ) → is_char_boundary s (floor_boundary s n) ≡ true
unfolding floor_boundary is_char_boundary
floor_boundary-is_char_boundary s zero = refl
floor_boundary-is_char_boundary s (suc n) = elim (Bool-cases (is_char_boundary s (suc n))) [
  | inl e ↦ rw e e
  | inr e ↦ rw e (floor_boundary-is_char_boundary s n)
]

-- A prefix that ends at a boundary is exactly that long.
pub byte_len-prefix : (s : Text) (n : ℕ) → is_char_boundary s n ≡ true → byte_len (prefix s n) ≡ n
unfolding byte_len prefix is_char_boundary
byte_len-prefix s zero h = refl
byte_len-prefix [] (suc n) h = absurd (true-false (sym h))
byte_len-prefix (c ∷ s) (suc n) h = elim (Bool-cases (leb (length (encode_utf8 c)) (suc n))) [
  | inl e ↦ ground (
    arith,
    e,
    byte_len-prefix s (suc n - length (encode_utf8 c))
        (rest_holds (leb (length (encode_utf8 c)) (suc n)) _ e h),
  )
  | inr e ↦ absurd (true-false (sym (no_rest (leb (length (encode_utf8 c)) (suc n)) _ e h)))
]
  where
    rest_holds : (t r : Bool) → t ≡ true → (if t then r else false) ≡ true → r ≡ true
    rest_holds true r e h = h
    rest_holds false r e h = absurd (true-false (sym e))

    no_rest : (t r : Bool) → t ≡ false → (if t then r else false) ≡ true → false ≡ true
    no_rest true r e h = absurd (true-false e)
    no_rest false r e h = h

-- No boundary between the cut and the limit is passed over.
floor_boundary_max :
    (s : Text) (n m : ℕ) → m ≤ n → is_char_boundary s m ≡ true → m ≤ floor_boundary s n
unfolding floor_boundary
floor_boundary_max s zero m le b = omega arith
floor_boundary_max s (suc n) m le b = elim (Bool-cases (is_char_boundary s (suc n))) [
  | inl e ↦ rw e le
  | inr e ↦ rw e (floor_boundary_max s n m (below e m le b) b)
]
  where
    below :
        is_char_boundary s (suc n) ≡ false
        → (k : ℕ) → k ≤ suc n
        → is_char_boundary s k ≡ true
        → k ≤ n
    below e k le b = elim (Bool-cases (k == suc n)) [
      | inl t ↦
          absurd (true-false (sym b ∙ ap (λ x. is_char_boundary s x) ((==_iff k (suc n)).0 t) ∙ e))
      | inr t ↦ ground (arith, t, le)
    ]

-- A cut text: the longest prefix, in whole characters, of at most `max` bytes, with the marker
-- behind it.
pub record IsCut (s : Text) (max : ℕ) (t : Text) : Type 0 where
  pub cut : ℕ
  pub text : t ≡ prefix s cut ++ truncation_marker
  pub bytes : byte_len (prefix s cut) ≡ cut
  pub bound : cut ≤ max
  pub longest : (m : ℕ) → m ≤ max → is_char_boundary s m ≡ true → m ≤ cut

some_inj : {x y : Text} → some x ≡ some y → x ≡ y
some_inj h = cc

no_text : {x : Text} → none ≡ some x → ⊥
no_text h = cc

pub truncate_cases :
    (s : Text) (max : ℕ)
    → ((truncate_event_text s max ≡ none) × (byte_len s ≤ max))
      ⊎ ((truncate_event_text s max ≡ some (prefix s (floor_boundary s max) ++ truncation_marker))
          × (max < byte_len s))
unfolding truncate_event_text
truncate_cases s max = elim (Bool-cases (leb (byte_len s) max)) [
  | inl e ↦ inl (rw e refl, ground (arith, e))
  | inr e ↦ inr (rw e refl, ground (arith, e))
]

-- A text that fits is left alone, and one that does not is cut at a character: what is kept is the
-- longest prefix of whole characters within the limit, and the marker follows it.
pub truncate_event_text-IsCut :
    (s : Text) (max : ℕ)
    → ((byte_len s ≤ max) × (truncate_event_text s max ≡ none))
      ⊎ ((max < byte_len s) × ((t : Text) × ((truncate_event_text s max ≡ some t) × IsCut s max t)))
truncate_event_text-IsCut s max = elim (truncate_cases s max) [
  | inl (e, le) ↦ inl (le, e)
  | inr (e, lt) ↦ inr (
    lt,
    (
      _,
      (
        e,
        record {
          cut = floor_boundary s max;
          text = refl;
          bytes = byte_len-prefix s (floor_boundary s max) (floor_boundary-is_char_boundary s max);
          bound = floor_boundary_le s max;
          longest = λ m le b. floor_boundary_max s max m le b;
        },
      ),
    ),
  )
]
