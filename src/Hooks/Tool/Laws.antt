-- ===== src/Hooks/Tool/Laws.antt =====
-- How tool calls are classified: crates/hooks/core/src/tool.rs.
use sondera_coding_agent_hoo.Prelude.{
  ℕ, Bool, true, false, Option, none, some, [], ◌∷◌, ◌≡◌, ◌≢◌, refl, sym, ap, ◌∙◌, subst, ◌⊎◌, inl,
  inr, Bool-cases, if◌then◌else◌, ◌↔◌, arith,
}
use sondera_coding_agent_hoo.Prelude.Text.{Text, contains_text, is_empty}
use sondera_coding_agent_hoo.Prelude.Unicode.{ascii_lower}
use sondera_coding_agent_hoo.Prelude.Lists.{true-false}
use sondera_coding_agent_hoo.Types.Json.{Json}
use sondera_coding_agent_hoo.Types.Action.{FileOpType, FileOperation}
use sondera_coding_agent_hoo.Hooks.Tool.{
  is_separator, normalize_tool_name, string_arg, file_path_arg, patch_tools, or_text, guarded,
  file_operation_for, file_operation_folded, is_some, is_none, is_file_operation,
  file_op_for_folded, content_keys, patch_keys, old_content_keys,
}
use sondera_coding_agent_hoo.Hooks.Tool.Web.{web_fetch_folded, web_fetch_for}

lower_kept :
    (c : ℕ)
    → is_separator c ≡ false
    → (is_separator (ascii_lower c) ≡ false) × (ascii_lower (ascii_lower c) ≡ ascii_lower c)
lower_kept c h = ground arith

-- Folding is a normal form: a folded name folds to itself.
pub normalize_tool_name_idem :
    (s : Text) → normalize_tool_name (normalize_tool_name s) ≡ normalize_tool_name s
unfolding normalize_tool_name
normalize_tool_name_idem [] = refl
normalize_tool_name_idem (c ∷ s) = elim (Bool-cases (is_separator c)) [
  | inl e ↦ rw (e, normalize_tool_name) (normalize_tool_name_idem s)
  | inr e ↦
      rw (e, normalize_tool_name)
        (rw ((lower_kept c e).0, normalize_tool_name)
          (rw (lower_kept c e).1 (ap (λ r. ascii_lower c ∷ r) (normalize_tool_name_idem s))))
]

-- Every spelling of a tool's name is judged alike: two names that differ in case, underscores,
-- dashes and spaces only give, for the same arguments and call id, the same file operation and the
-- same web fetch, or both none.
pub file_operation_for-fold :
    (a b : Text) (args : Json) (call_id : Text)
    → normalize_tool_name a ≡ normalize_tool_name b
    → (file_operation_for a args call_id ≡ file_operation_for b args call_id)
      × (web_fetch_for a args call_id ≡ web_fetch_for b args call_id)
unfolding file_operation_for web_fetch_for
file_operation_for-fold a b args call_id h =
    (ap (λ n. file_operation_folded n args call_id) h, ap (λ n. web_fetch_folded n args call_id) h)

-- What a built operation holds: the call id that was given, and a path, or a patch body where the
-- tool is one that patches.
abbrev pub IsGrounded : Text → Text → FileOperation → Type 0
IsGrounded folded call_id op =
    (op.call_id ≡ call_id)
    × ((op.path ≢ []) ⊎ ((contains_text patch_tools folded ≡ true) × (op.content ≢ none)))

operation_inj : {x y : FileOperation} → some x ≡ some y → x ≡ y
operation_inj h = cc

no_operation : {x : FileOperation} → none ≡ some x → ⊥
no_operation h = cc

guarded-IsGrounded :
    (operation : FileOpType) (path folded : Text) (content old_content : Option Text)
    (call_id : Text) (op : FileOperation)
    → guarded operation path (contains_text patch_tools folded) content old_content call_id
      ≡ some op
    → IsGrounded folded call_id op
unfolding guarded is_empty is_none
guarded-IsGrounded operation (c ∷ path) folded content old_content call_id op =
    λ h. subst (IsGrounded folded call_id) (operation_inj h) (refl, inl (λ e. cc))
guarded-IsGrounded operation [] folded content old_content call_id op =
    elim (Bool-cases (contains_text patch_tools folded)) [
      | inr b ↦ rw b (λ h. absurd (no_operation h))
      | inl b ↦ rw b (by_content content)
    ]
  where
    by_content :
        (c : Option Text)
        → (if is_none c
            then none
            else some (record {
              call_id = call_id;
              operation = operation;
              path = [];
              content = c;
              old_content = old_content;
            }))
          ≡ some op
        → (op.call_id ≡ call_id) × ((op.path ≢ []) ⊎ ((true ≡ true) × (op.content ≢ none)))
    by_content none h = absurd (no_operation h)
    by_content (some c) h =
        subst (λ o. (o.call_id ≡ call_id) × ((o.path ≢ []) ⊎ ((true ≡ true) × (o.content ≢ none))))
          (operation_inj h) (refl, inr (refl, λ e. cc))

file_operation_folded-IsGrounded :
    (folded : Text) (args : Json) (call_id : Text) (op : FileOperation)
    → file_operation_folded folded args call_id ≡ some op
    → IsGrounded folded call_id op
unfolding file_operation_folded
file_operation_folded-IsGrounded folded args call_id op =
    by_operation (file_op_for_folded folded args)
  where
    by_operation :
        (o : Option FileOpType)
        → (elim o as (λ _. Option FileOperation) [
          | none ↦ none
          | some operation ↦
              guarded operation
                (file_path_arg args)
                (contains_text patch_tools folded)
                (or_text (string_arg args content_keys) (string_arg args patch_keys))
                (string_arg args old_content_keys)
                call_id
        ])
          ≡ some op
        → IsGrounded folded call_id op
    by_operation none h = absurd (no_operation h)
    by_operation (some operation) h =
        guarded-IsGrounded operation (file_path_arg args) folded _ _ call_id op h

-- Whether a call builds an operation does not depend on its id.
guarded_call :
    (operation : FileOpType) (path : Text) (patch : Bool) (content old_content : Option Text)
    (i j : Text)
    → is_some (guarded operation path patch content old_content i)
      ≡ is_some (guarded operation path patch content old_content j)
unfolding guarded is_some
guarded_call operation path patch content old_content i j = ground arith

file_operation_folded_call :
    (folded : Text) (args : Json) (i j : Text)
    → is_some (file_operation_folded folded args i) ≡ is_some (file_operation_folded folded args j)
unfolding file_operation_folded
file_operation_folded_call folded args i j = by_operation (file_op_for_folded folded args)
  where
    by_operation :
        (o : Option FileOpType)
        → is_some (elim o as (λ _. Option FileOperation) [
          | none ↦ none
          | some operation ↦
              guarded operation
                (file_path_arg args)
                (contains_text patch_tools folded)
                (or_text (string_arg args content_keys) (string_arg args patch_keys))
                (string_arg args old_content_keys)
                i
        ])
          ≡ is_some (elim o as (λ _. Option FileOperation) [
            | none ↦ none
            | some operation ↦
                guarded operation
                  (file_path_arg args)
                  (contains_text patch_tools folded)
                  (or_text (string_arg args content_keys) (string_arg args patch_keys))
                  (string_arg args old_content_keys)
                  j
          ])
    by_operation none = refl
    by_operation (some operation) = guarded_call operation (file_path_arg args) _ _ _ i j

is_some_iff : {A : Type 0} (o : Option A) → (is_some o ≡ true) ↔ ((a : A) × (o ≡ some a))
unfolding is_some
is_some_iff none = (λ h. absurd (true-false (sym h)), λ (a, e). absurd (none_some e))
  where
    none_some : {A : Type 0} {a : A} → none ≡ some a → ⊥
    none_some k = cc
is_some_iff (some a) = (λ h. (a, refl), λ e. refl)

-- Both halves of a tool call see the same tool: `is_file_operation`, which the report of a result
-- asks, holds exactly when the call, under whatever id, was adjudicated as a file operation. Such
-- an operation carries that id and either a path, or a patch body where the tool is a patch tool.
pub file_operation_for-IsGrounded :
    (name : Text) (args : Json) (call_id : Text)
    → ((is_file_operation name args ≡ true)
        ↔ ((op : FileOperation) × (file_operation_for name args call_id ≡ some op)))
      × ((op : FileOperation)
          → file_operation_for name args call_id ≡ some op
          → IsGrounded (normalize_tool_name name) call_id op)
unfolding is_file_operation file_operation_for
file_operation_for-IsGrounded name args call_id =
    let folded = normalize_tool_name name in
    let same = is_some_iff (file_operation_folded folded args call_id) in
    (
      (
        λ h. same.0 (file_operation_folded_call folded args call_id [] ∙ h),
        λ e. file_operation_folded_call folded args [] call_id ∙ same.1 e,
      ),
      λ op h. file_operation_folded-IsGrounded folded args call_id op h,
    )
