-- ===== src/Prelude/Lists.antt =====
-- Membership in appended lists, lists without doubles, and membership as a test on texts.
use mathlib.Core.Path.{◌≡◌, refl, sym}
use mathlib.Core.Logic.{◌⊎◌, inl, inr}
use mathlib.Core.Bool.{true, false}
use mathlib.Core.List.{List, [], ◌∷◌, ◌++◌}
use sondera_coding_agent_hoo.Prelude.Tests.{Has, Bool-cases}
use sondera_coding_agent_hoo.Prelude.Text.{Text, text_eq, text_eq→eq, text_eq_refl, contains_text}

pub true-false : true ≡ false → ⊥
true-false h = cc

module _ {A : Type 0} where
  -- Nothing stands in the list twice.
  abbrev pub IsDistinct : List A → Type 0
  IsDistinct [] = Unit
  IsDistinct (x ∷ xs) = ¬ Has x xs × IsDistinct xs

  pub Has-snoc : (xs : List A) (x y : A) → Has y (xs ++ x ∷ []) → Has y xs ⊎ (y ≡ x)
  Has-snoc [] x y h = elim h [ inl e ↦ inr e | inr n ↦ absurd n ]
  Has-snoc (z ∷ xs) x y (inl e) = inl (inl e)
  Has-snoc (z ∷ xs) x y (inr h) = elim (Has-snoc xs x y h) [ inl m ↦ inl (inr m) | inr e ↦ inr e ]

  pub Has-append_left : (xs ys : List A) (y : A) → Has y xs → Has y (xs ++ ys)
  Has-append_left [] ys y h = elim h [ ]
  Has-append_left (x ∷ xs) ys y (inl e) = inl e
  Has-append_left (x ∷ xs) ys y (inr h) = inr (Has-append_left xs ys y h)

  pub Has-append_last : (xs : List A) (y : A) → Has y (xs ++ y ∷ [])
  Has-append_last [] y = inl refl
  Has-append_last (x ∷ xs) y = inr (Has-append_last xs y)

  pub IsDistinct-snoc :
      (xs : List A) (x : A) → IsDistinct xs → ¬ Has x xs → IsDistinct (xs ++ x ∷ [])
  IsDistinct-snoc [] x d n = (λ h. h, tt)
  IsDistinct-snoc (y ∷ xs) x d n = (
    λ h. elim (Has-snoc xs x y h) [ inl m ↦ d.0 m | inr e ↦ n (inl (sym e)) ],
    IsDistinct-snoc xs x d.1 (λ h. n (inr h)),
  )

pub contains_text→Has : (xs : List Text) (x : Text) → contains_text xs x ≡ true → Has x xs
unfolding contains_text
contains_text→Has [] x h = absurd (true-false (sym h))
contains_text→Has (y ∷ xs) x h = elim (Bool-cases (text_eq y x)) [
  | inl e ↦ inl (sym (text_eq→eq y x e))
  | inr e ↦ inr (contains_text→Has xs x (rw e at h))
]

pub Has→contains_text : (xs : List Text) (x : Text) → Has x xs → contains_text xs x ≡ true
unfolding contains_text
Has→contains_text [] x h = elim h [ ]
Has→contains_text (y ∷ xs) x (inl e) = rw e (rw (text_eq_refl y) refl)
Has→contains_text (y ∷ xs) x (inr h) = elim (Bool-cases (text_eq y x)) [
  | inl e ↦ rw e refl
  | inr e ↦ rw e (Has→contains_text xs x h)
]
