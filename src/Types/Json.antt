-- ===== src/Types/Json.antt =====
-- `serde_json::Value`, as far as the crates use it, and the maps from `String` to `String`.
use sondera_coding_agent_hoo.Prelude.{
  Bool, true, false, Option, none, some, List, [], ◌∷◌, if◌then◌else◌, ◌≡◌, refl, sym, ◌∙◌,
  Bool-cases, inl, inr,
}
use sondera_coding_agent_hoo.Prelude.Text.{Text, text_eq, text_eq_refl, text_eq→eq, eq→text_eq}
use sondera_coding_agent_hoo.Prelude.Int.{ℤ}

-- A number that is no integer is kept by its text.
mutual
  pub data Json : Type 0 where
    null : Json
    bool : Bool → Json
    integer : ℤ → Json
    decimal : Text → Json
    string : Text → Json
    array : Elements → Json
    object : Members → Json

  pub data Elements : Type 0 where
    none_left : Elements
    element : Json → Elements → Elements

  pub data Members : Type 0 where
    closed : Members
    member : Text → Json → Members → Members

-- `value.as_str()`.
unfoldable pub as_str : Json → Option Text
as_str (string s) = some s
as_str _ = none

-- `HashMap<String, V>` as an association list without double keys.
abbrev pub HashMap : Type 0 → Type 0
HashMap V = List (Text × V)

pub text_ne_swap : (j k x : Text) → text_eq j k ≡ false → text_eq j x ≡ true → text_eq k x ≡ false
text_ne_swap j k x e f = elim (Bool-cases (text_eq k x)) [
  | inr g ↦ g
  | inl g ↦ g ∙ sym (eq→text_eq j k (text_eq→eq j x f ∙ sym (text_eq→eq k x g))) ∙ e
]

module _ {V : Type 0} where
  unfoldable pub insert : HashMap V → Text → V → HashMap V
  insert [] k v = (k, v) ∷ []
  insert ((j, w) ∷ m) k v =
      let rest = insert m k v in if text_eq j k then (k, v) ∷ m else (j, w) ∷ rest

  unfoldable pub get : HashMap V → Text → Option V
  get [] k = none
  get ((j, w) ∷ m) k = let rest = get m k in if text_eq j k then some w else rest

  pub get-insert_same : (m : HashMap V) (k : Text) (v : V) → get (insert m k v) k ≡ some v
  unfolding get insert
  get-insert_same [] k v = rw (text_eq_refl k) refl
  get-insert_same ((j, w) ∷ m) k v = elim (Bool-cases (text_eq j k)) [
    | inl e ↦ rw e (rw (text_eq_refl k) refl)
    | inr e ↦ rw e (rw e (get-insert_same m k v))
  ]

  -- A read after an insertion, for every key.
  pub get-insert :
      (m : HashMap V) (k : Text) (v : V) (x : Text)
      → get (insert m k v) x ≡ (if text_eq k x then some v else get m x)
  unfolding get insert
  get-insert [] k v x = refl
  get-insert ((j, w) ∷ m) k v x = elim (Bool-cases (text_eq j k)) [
    | inl e ↦ rw e (
        rw (text_eq→eq j k e)
          (elim (Bool-cases (text_eq k x)) [ inl f ↦ rw f refl | inr f ↦ rw f refl ]))
    | inr e ↦ rw e (elim (Bool-cases (text_eq j x)) [
      | inl f ↦ rw f (rw (text_ne_swap j k x e f) refl)
      | inr f ↦ rw f (get-insert m k v x)
    ])
  ]

-- The value of a key among the members of an object.
unfoldable pub find_member : Members → Text → Option Json
find_member closed k = none
find_member (member j v ms) k = let rest = find_member ms k in if text_eq j k then some v else rest

-- `value.get(key)`: none where the value is no object.
unfoldable pub get_key : Json → Text → Option Json
unfolding find_member
get_key (object ms) k = find_member ms k
get_key _ k = none

-- `value.as_array()`.
unfoldable pub as_array : Json → Option Elements
as_array (array es) = some es
as_array _ = none

unfoldable pub is_null : Json → Bool
is_null null = true
is_null _ = false
