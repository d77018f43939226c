-- ===== src/Types/Page.antt =====
-- A window of a list of matches: crates/types/src/page.rs.
use sondera_coding_agent_hoo.Prelude.{
  ℕ, zero, suc, ◌+◌, ◌-◌, min, List, [], ◌∷◌, ◌++◌, length, ◌≡◌, refl, ap, sym, subst, arith,
}
use native.Mathlib.Nat.{zero-add, suc-add}
use native.Mathlib.Numerals.{unary_clauses}

pub record Page (T : Type 0) : Type 0 where
  pub items : List T
  pub total : ℕ

module _ {T : Type 0} where
  -- `iter.skip(n)` and `iter.take(n)`.
  unfoldable pub skip : List T → ℕ → List T
  skip xs zero = xs
  skip [] (suc n) = []
  skip (x ∷ xs) (suc n) = skip xs n

  unfoldable pub take : List T → ℕ → List T
  take xs zero = []
  take [] (suc n) = []
  take (x ∷ xs) (suc n) = x ∷ take xs n

  unfoldable pub slice : List T → ℕ → ℕ → Page T
  unfolding skip take
  slice all offset limit = record { items = take (skip all offset) limit; total = length all }

  unfoldable pub default_page : Page T
  default_page = record { items = []; total = 0 }

  skip_nil : (n : ℕ) → skip [] n ≡ []
  unfolding skip
  skip_nil zero = refl
  skip_nil (suc n) = refl

  take_nil : (n : ℕ) → take [] n ≡ []
  unfolding take
  take_nil zero = refl
  take_nil (suc n) = refl

  skip-skip : (xs : List T) (a b : ℕ) → skip xs (a + b) ≡ skip (skip xs a) b
  unfolding skip
  skip-skip xs zero b = ap (λ n. skip xs n) (zero-add b)
  skip-skip [] (suc a) b = simp (unary_clauses, skip_nil) refl
  skip-skip (x ∷ xs) (suc a) b =
      subst (λ n. skip (x ∷ xs) n ≡ skip (skip xs a) b) (sym (suc-add a b)) (skip-skip xs a b)

  take-add : (xs : List T) (a b : ℕ) → take xs (a + b) ≡ take xs a ++ take (skip xs a) b
  unfolding skip take
  take-add xs zero b = ap (λ n. take xs n) (zero-add b)
  take-add [] (suc a) b = simp (unary_clauses, take_nil) refl
  take-add (x ∷ xs) (suc a) b =
      subst (λ n. take (x ∷ xs) n ≡ x ∷ (take xs a ++ take (skip xs a) b)) (sym (suc-add a b))
        (ap (λ r. x ∷ r) (take-add xs a b))

  length-take : (xs : List T) (n : ℕ) → length (take xs n) ≡ min n (length xs)
  unfolding take
  length-take xs zero = omega arith
  length-take [] (suc n) = omega arith
  length-take (x ∷ xs) (suc n) = ground (arith, length-take xs n)

  length-skip : (xs : List T) (n : ℕ) → length (skip xs n) ≡ length xs - n
  unfolding skip
  length-skip xs zero = omega arith
  length-skip [] (suc n) = omega arith
  length-skip (x ∷ xs) (suc n) = omega (arith, length-skip xs n)

-- Reading two windows in a row is reading one: the items of the window at `offset` of `a` items
-- and of the window at `offset + a` of `b` items are together the items of the window at `offset`
-- of `a + b` items.
pub slice_tiles :
    {T : Type 0} (xs : List T) (offset a b : ℕ)
    → (slice xs offset a).items ++ (slice xs (offset + a) b).items ≡ (slice xs offset (a + b)).items
unfolding slice
slice_tiles xs offset a b = rw (take-add (skip xs offset) a b) (rw (skip-skip xs offset a) refl)

-- The number of items of a window: `limit`, or what is left behind `offset` when that is less.
pub length-slice :
    {T : Type 0} (xs : List T) (offset limit : ℕ)
    → length (slice xs offset limit).items ≡ min limit (length xs - offset)
unfolding slice
length-slice xs offset limit =
    rw (length-take (skip xs offset) limit) (rw (length-skip xs offset) refl)
