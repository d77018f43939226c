-- ===== src/Prelude/Sets.antt =====
-- `BTreeSet<String>`: a list of texts in strictly ascending order. UTF-8 keeps the order of code
-- points, so the byte order of Rust's `str` is the lexicographic order here.
use Prim.Native.Nat.{compare, Ordering}
use mathlib.Core.Path.{◌≡◌, refl}
use mathlib.Core.Logic.{◌⊎◌, inl, inr}
use mathlib.Core.List.{List, [], ◌∷◌}
use native.Mathlib.Omega.{arith}
use sondera_coding_agent_hoo.Prelude.Tests.{Has}
use sondera_coding_agent_hoo.Prelude.Text.{Text}

unfoldable pub text_cmp : Text → Text → Ordering
text_cmp [] [] = Ordering.eq
text_cmp [] (b ∷ t) = Ordering.lt
text_cmp (a ∷ s) [] = Ordering.gt
text_cmp (a ∷ s) (b ∷ t) =
    let rest = text_cmp s t in
    elim (compare a b) [
      | Ordering.lt ↦ Ordering.lt
      | Ordering.gt ↦ Ordering.gt
      | Ordering.eq ↦ rest
    ]

-- `set.insert(x)`.
unfoldable pub set_insert : Text → List Text → List Text
set_insert x [] = x ∷ []
set_insert x (y ∷ ys) =
    let rest = set_insert x ys in
    elim (text_cmp x y) [ Ordering.lt ↦ x ∷ y ∷ ys | Ordering.eq ↦ y ∷ ys | Ordering.gt ↦ y ∷ rest ]

-- `set.extend(other)`.
unfoldable pub set_extend : List Text → List Text → List Text
set_extend s [] = s
set_extend s (x ∷ xs) = set_extend (set_insert x s) xs

pub text_cmp_eq : (s t : Text) → text_cmp s t ≡ Ordering.eq → s ≡ t
unfolding text_cmp
text_cmp_eq [] [] h = refl
text_cmp_eq [] (b ∷ t) h = cc
text_cmp_eq (a ∷ s) [] h = cc
text_cmp_eq (a ∷ s) (b ∷ t) h = ground (arith, text_cmp_eq s t)

pub Has-set_insert_self : (x : Text) (s : List Text) → Has x (set_insert x s)
unfolding set_insert
Has-set_insert_self x [] = inl refl
Has-set_insert_self x (y ∷ ys) = ground (arith, Has-set_insert_self x ys, text_cmp_eq x y)

pub Has-set_insert : (z x : Text) (s : List Text) → Has z s → Has z (set_insert x s)
unfolding set_insert
Has-set_insert z x [] h = elim h [ ]
Has-set_insert z x (y ∷ ys) h = ground (arith, Has-set_insert z x ys)

-- An inserted set holds nothing else.
pub Has-set_insert_inv : (z x : Text) (s : List Text) → Has z (set_insert x s) → (z ≡ x) ⊎ Has z s
unfolding set_insert
Has-set_insert_inv z x [] h = h
Has-set_insert_inv z x (y ∷ ys) h = ground (arith, Has-set_insert_inv z x ys)

pub Has-set_extend_left : (z : Text) (s t : List Text) → Has z s → Has z (set_extend s t)
unfolding set_extend
Has-set_extend_left z s [] h = h
Has-set_extend_left z s (x ∷ xs) h =
    Has-set_extend_left z (set_insert x s) xs (Has-set_insert z x s h)

pub Has-set_extend_right : (z : Text) (s t : List Text) → Has z t → Has z (set_extend s t)
unfolding set_extend
Has-set_extend_right z s [] h = elim h [ ]
Has-set_extend_right z s (x ∷ xs) (inl e) =
    Has-set_extend_left z (set_insert x s) xs (rw e (Has-set_insert_self x s))
Has-set_extend_right z s (x ∷ xs) (inr h) = Has-set_extend_right z (set_insert x s) xs h
