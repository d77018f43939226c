-- ===== src/Cedar/Path/Laws.antt =====
-- What the normal form of a path looks like, and that normalising it again changes nothing.
use sondera_coding_agent_hoo.Prelude.{
  ℕ, ◌≡◌, refl, ◌≢◌, inl, inr, Bool, true, false, [], ◌∷◌, ◌++◌, ◌==◌, ◌<◌, ltb, arith, All,
  Bool-cases,
}
use sondera_coding_agent_hoo.Prelude.Text.{Text, strip_prefix}
use sondera_coding_agent_hoo.Prelude.Unicode.{Unicode, to_lowercase, IsTable}
use sondera_coding_agent_hoo.Cedar.Path.{normalize_from, strip_windows_prefix, normalize_path_value}

-- A character of a normal form: lower case and no backslash.
abbrev pub IsPlain : Unicode → ℕ → Type 0
IsPlain u c = (to_lowercase u c ≡ c ∷ []) × (c ≢ 0x5c)

-- Normal text behind a slash (`true`) or behind anything else (`false`).
abbrev pub IsNormal : Unicode → Bool → Text → Type 0
IsNormal u last [] = Unit
IsNormal u last (c ∷ s) = IsPlain u c × (last ≡ true → c ≢ b'/') × IsNormal u (c == b'/') s

abbrev IsOther : Unicode → ℕ → Type 0
IsOther u d = IsPlain u d × (d ≢ b'/')

module _ (u : Unicode) where
  All-plain :
      (xs : Text)
      → All (λ d. to_lowercase u d ≡ d ∷ []) xs
      → All (λ d. (d ≢ b'/') × (d ≢ 0x5c)) xs
      → All (IsOther u) xs
  All-plain [] h k = tt
  All-plain (x ∷ xs) (e, h) ((p, q), k) = (((e, q), p), All-plain xs h k)

  IsNormal-append :
      (xs s : Text) → All (IsOther u) xs → IsNormal u false s → IsNormal u false (xs ++ s)
  IsNormal-append [] s h k = k
  IsNormal-append (x ∷ xs) s ((p, q), h) k = (p, (λ e. q), ground (arith, IsNormal-append xs s h k))

  IsNormal-append_slash :
      (xs s : Text) → xs ≢ [] → All (IsOther u) xs → IsNormal u false s → IsNormal u true (xs ++ s)
  IsNormal-append_slash [] s n h k = absurd (n refl)
  IsNormal-append_slash (x ∷ xs) s n ((p, q), h) k =
      (p, (λ e. q), ground (arith, IsNormal-append xs s h k))

  IsNormal-weaken : (s : Text) → IsNormal u true s → IsNormal u false s
  IsNormal-weaken [] h = tt
  IsNormal-weaken (c ∷ s) h = (h.0, (λ e. h.1 refl), h.2)

module _ (u : Unicode) (table : IsTable u) where
  lower_ascii : (c : ℕ) → c < 128 → c ≢ b'/' → c ≢ 0x5c → All (IsOther u) (to_lowercase u c)
  unfolding to_lowercase
  lower_ascii c small h k = ground arith

  lower_plain : (c : ℕ) → c ≢ b'/' → c ≢ 0x5c → All (IsOther u) (to_lowercase u c)
  unfolding to_lowercase
  lower_plain c h k = elim (Bool-cases (ltb c 128)) [
    | inl small ↦ lower_ascii c (ground arith) h k
    | inr big ↦
        rw (big, to_lowercase)
          (All-plain u (u.lower c) (table.fixed c (ground arith)) (table.no_slash c (ground arith)))
  ]

  lower_occupied : (c : ℕ) → to_lowercase u c ≢ []
  unfolding to_lowercase
  lower_occupied c = ground (arith, table.occupied c)

  slash-IsPlain : IsPlain u b'/'
  unfolding to_lowercase
  slash-IsPlain = ground arith

  normalize_from-IsNormal : (last : Bool) (s : Text) → IsNormal u last (normalize_from u last s)
  unfolding normalize_from
  normalize_from-IsNormal last [] = tt
  normalize_from-IsNormal true (c ∷ s) = ground (
    arith,
    normalize_from-IsNormal true s,
    IsNormal-append_slash u (to_lowercase u c) (normalize_from u false s) (lower_occupied c),
    lower_plain c,
    normalize_from-IsNormal false s,
  )
  normalize_from-IsNormal false (c ∷ s) = ground (
    arith,
    normalize_from-IsNormal true s,
    IsNormal-append u (to_lowercase u c) (normalize_from u false s),
    lower_plain c,
    normalize_from-IsNormal false s,
    slash-IsPlain,
  )

  -- Under a lower-case table that is one (`IsTable`), every normalized path is in normal form: no
  -- backslash, no two slashes in a row, and each character its own lower-case mapping.
  pub normalize_path_value-IsNormal : (path : Text) → IsNormal u false (normalize_path_value u path)
  unfolding normalize_path_value
  normalize_path_value-IsNormal path = normalize_from-IsNormal false (strip_windows_prefix path)

normalize_from_of_IsNormal :
    (u : Unicode) (last : Bool) (s : Text) → IsNormal u last s → normalize_from u last s ≡ s
unfolding normalize_from
normalize_from_of_IsNormal u last [] h = refl
normalize_from_of_IsNormal u last (c ∷ s) (p, q, h) =
    ground (arith, normalize_from_of_IsNormal u (c == b'/') s h)

strip_windows_prefix_of_IsNormal :
    (u : Unicode) (s : Text) → IsNormal u false s → strip_windows_prefix s ≡ s
unfolding strip_windows_prefix strip_prefix
strip_windows_prefix_of_IsNormal u [] h = refl
strip_windows_prefix_of_IsNormal u (c ∷ s) (p, q, h) = ground arith

normalize_path_value_of_IsNormal :
    (u : Unicode) (s : Text) → IsNormal u false s → normalize_path_value u s ≡ s
unfolding normalize_path_value
normalize_path_value_of_IsNormal u s h =
    rw (strip_windows_prefix_of_IsNormal u s h) (normalize_from_of_IsNormal u false s h)

-- Under a lower-case table that is one (`IsTable`), normalizing a path a second time changes
-- nothing.
pub normalize_path_value_idem :
    (u : Unicode) (table : IsTable u) (path : Text)
    → normalize_path_value u (normalize_path_value u path) ≡ normalize_path_value u path
normalize_path_value_idem u table path =
    let s = normalize_path_value u path in
    let h = normalize_path_value-IsNormal u table path in normalize_path_value_of_IsNormal u s h
