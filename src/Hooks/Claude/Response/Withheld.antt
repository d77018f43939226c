-- ===== src/Hooks/Claude/Response/Withheld.antt =====
-- What a blocked tool output still shows: crates/hooks/claude/src/response.rs.
use sondera_coding_agent_hoo.Prelude.{Bool, true, false, ◌≡◌, refl, ap, ◌∙◌, subst}
use sondera_coding_agent_hoo.Prelude.Text.{Text, contains_text}
use sondera_coding_agent_hoo.Types.Json.{
  Json, Elements, Members, null, bool, integer, decimal, string, array, object, none_left, element,
  closed, member,
}
use sondera_coding_agent_hoo.Hooks.Claude.Response.{
  preserved_keys, redact_tool_output, redact_elements, redact_members, redact_member,
}

-- The values of one key: a string under a preserved key is the same text.
abbrev pub KeptOr : Json → Json → Bool → Type 0 → Type 0
KeptOr (string a) (string b) true same = a ≡ b
KeptOr _ _ _ same = same

-- Two outputs of one shape: the same constructors, keys, lengths and preserved tags, whatever the
-- other strings, the numbers and the flags are.
abbrev mutual
  pub SameShape : Json → Json → Type 0
  SameShape null null = Unit
  SameShape (bool a) (bool b) = Unit
  SameShape (integer a) (integer b) = Unit
  SameShape (decimal a) (decimal b) = Unit
  SameShape (string a) (string b) = Unit
  SameShape (array s) (array t) = SameElements s t
  SameShape (object s) (object t) = SameMembers s t
  SameShape _ _ = ⊥

  pub SameElements : Elements → Elements → Type 0
  SameElements none_left none_left = Unit
  SameElements (element a s) (element b t) = SameShape a b × SameElements s t
  SameElements _ _ = ⊥

  pub SameMembers : Members → Members → Type 0
  SameMembers closed closed = Unit
  SameMembers (member j a s) (member k b t) =
      ((j ≡ k) × KeptOr a b (contains_text preserved_keys j) (SameShape a b)) × SameMembers s t
  SameMembers _ _ = ⊥

mutual
  unfolding redact_tool_output

  redact_same : (v w : Json) → SameShape v w → redact_tool_output v ≡ redact_tool_output w
  redact_same null null h = refl
  redact_same (bool a) (bool b) h = refl
  redact_same (integer a) (integer b) h = refl
  redact_same (decimal a) (decimal b) h = refl
  redact_same (string a) (string b) h = refl
  redact_same (array s) (array t) h = ap (λ x. array x) (elements_same s t h)
  redact_same (object s) (object t) h = ap (λ x. object x) (members_same s t h)
  redact_same _ _ h = absurd h

  elements_same : (s t : Elements) → SameElements s t → redact_elements s ≡ redact_elements t
  elements_same none_left none_left h = refl
  elements_same (element a s) (element b t) h =
      ap (λ x. element x (redact_elements s)) (redact_same a b h.0)
      ∙ ap (λ x. element (redact_tool_output b) x) (elements_same s t h.1)
  elements_same _ _ h = absurd h

  members_same : (s t : Members) → SameMembers s t → redact_members s ≡ redact_members t
  members_same closed closed h = refl
  members_same (member j a s) (member k b t) h =
      ap (λ x. member x (redact_member x a) (redact_members s)) h.0.0
      ∙ ap (λ x. member k x (redact_members s))
          (member_same k (contains_text preserved_keys k) refl a b
            (subst (λ x. KeptOr a b (contains_text preserved_keys x) (SameShape a b)) h.0.0 h.0.1))
      ∙ ap (λ x. member k (redact_member k b) x) (members_same s t h.1)
  members_same _ _ h = absurd h

  member_same :
      (k : Text) (kept : Bool)
      → contains_text preserved_keys k ≡ kept
      → (a b : Json) → KeptOr a b kept (SameShape a b)
      → redact_member k a ≡ redact_member k b
  member_same k true e (string a) (string b) h = ap (λ x. redact_member k (string x)) h
  member_same k false e (string a) (string b) h = rw e refl
  member_same k kept e null null h = refl
  member_same k kept e (bool a) (bool b) h = refl
  member_same k kept e (integer a) (integer b) h = refl
  member_same k kept e (decimal a) (decimal b) h = refl
  member_same k kept e (array s) (array t) h = ap (λ x. array x) (elements_same s t h)
  member_same k kept e (object s) (object t) h = ap (λ x. object x) (members_same s t h)
  member_same k kept e _ _ h = absurd h

mutual
  unfolding redact_tool_output

  shape_of : (v : Json) → SameShape v (redact_tool_output v)
  shape_of null = tt
  shape_of (bool b) = tt
  shape_of (integer n) = tt
  shape_of (decimal t) = tt
  shape_of (string s) = tt
  shape_of (array es) = elements_shape es
  shape_of (object ms) = members_shape ms

  elements_shape : (es : Elements) → SameElements es (redact_elements es)
  elements_shape none_left = tt
  elements_shape (element v es) = (shape_of v, elements_shape es)

  members_shape : (ms : Members) → SameMembers ms (redact_members ms)
  members_shape closed = tt
  members_shape (member k v ms) =
      ((refl, member_shape k (contains_text preserved_keys k) refl v), members_shape ms)

  member_shape :
      (k : Text) (kept : Bool)
      → contains_text preserved_keys k ≡ kept
      → (v : Json) → KeptOr v (redact_member k v) kept (SameShape v (redact_member k v))
  member_shape k true e (string s) = rw e refl
  member_shape k false e (string s) = rw e tt
  member_shape k kept e null = tt
  member_shape k kept e (bool b) = tt
  member_shape k kept e (integer n) = tt
  member_shape k kept e (decimal t) = tt
  member_shape k kept e (array es) = elements_shape es
  member_shape k kept e (object ms) = members_shape ms

-- A blocked output shows its shape and nothing else: the redacted form has the shape of the
-- output, with the strings under `type` and `media_type` kept, and any two outputs of one shape
-- have the same redacted form, so that no other string, number or flag can be told from it.
pub redact_tool_output-SameShape :
    (v w : Json)
    → SameShape v (redact_tool_output v)
      × (SameShape v w → redact_tool_output v ≡ redact_tool_output w)
redact_tool_output-SameShape v w = (shape_of v, redact_same v w)
