-- ===== src/Hooks/Claude/Action/Laws.antt =====
-- The flag for plan files, of crates/hooks/claude/src/hooks.rs.
use sondera_coding_agent_hoo.Prelude.{
  Bool, false, Option, none, some, List, [], ◌∷◌, ◌≡◌, refl, Bool-cases, inl, inr,
}
use sondera_coding_agent_hoo.Prelude.Text.{Text, codes, text_eq, text_eq→eq}
use sondera_coding_agent_hoo.Types.Json.{
  Json, Members, null, bool, integer, decimal, string, array, object, closed, member, get_key,
  find_member,
}
use sondera_coding_agent_hoo.Hooks.Tool.{string_arg}
use sondera_coding_agent_hoo.Hooks.Claude.Action.{
  put_member, put_plan_flag, plan_file_key, enrich_with_plan_file_flag, normalize_pre_tool_action,
  path_keys, edit_action, write_action, notebook_action,
}

-- A member that is put in is not seen under another key.
find_member-put_member :
    (ms : Members) (k : Text) (v : Json) (x : Text)
    → text_eq k x ≡ false
    → find_member (put_member ms k v) x ≡ find_member ms x
unfolding find_member put_member
find_member-put_member closed k v x e = rw e refl
find_member-put_member (member j w ms) k v x e = elim (Bool-cases (text_eq j k)) [
  | inl f ↦ rw f (rw (text_eq→eq j k f) (rw e refl))
  | inr f ↦ rw f (elim (Bool-cases (text_eq j x)) [
    | inl g ↦ rw g refl
    | inr g ↦ rw g (find_member-put_member ms k v x e)
  ])
]

-- No key of the list is the one of the flag.
abbrev pub Apart : List Text → Type 0
Apart [] = Unit
Apart (k ∷ ks) = (text_eq plan_file_key k ≡ false) × Apart ks

module _ (is_plan_file : Text → Bool) where
  get_key-put_plan_flag :
      (o : Option Text) (ms : Members) (x : Text)
      → text_eq plan_file_key x ≡ false
      → get_key (put_plan_flag is_plan_file o ms) x ≡ find_member ms x
  unfolding put_plan_flag get_key
  get_key-put_plan_flag none ms x e = refl
  get_key-put_plan_flag (some path) ms x e =
      find_member-put_member ms plan_file_key (bool (is_plan_file path)) x e

  get_key-enrich_with_plan_file_flag :
      (v : Json) (x : Text)
      → text_eq plan_file_key x ≡ false
      → get_key (enrich_with_plan_file_flag is_plan_file v) x ≡ get_key v x
  unfolding enrich_with_plan_file_flag get_key
  get_key-enrich_with_plan_file_flag (object ms) x e = get_key-put_plan_flag _ ms x e
  get_key-enrich_with_plan_file_flag null x e = refl
  get_key-enrich_with_plan_file_flag (bool b) x e = refl
  get_key-enrich_with_plan_file_flag (integer n) x e = refl
  get_key-enrich_with_plan_file_flag (decimal t) x e = refl
  get_key-enrich_with_plan_file_flag (string t) x e = refl
  get_key-enrich_with_plan_file_flag (array es) x e = refl

  string_arg_nil : (w v : Json) → string_arg w [] ≡ string_arg v []
  unfolding string_arg
  string_arg_nil w v = refl

  string_arg_cons :
      (w v : Json) (k : Text) (ks : List Text)
      → get_key w k ≡ get_key v k
      → string_arg w ks ≡ string_arg v ks
      → string_arg w (k ∷ ks) ≡ string_arg v (k ∷ ks)
  unfolding string_arg
  string_arg_cons w v k ks e f = rw (e, string_arg) (rw (f, string_arg) refl)

  string_arg-enrich_with_plan_file_flag :
      (v : Json) (ks : List Text)
      → Apart ks
      → string_arg (enrich_with_plan_file_flag is_plan_file v) ks ≡ string_arg v ks
  string_arg-enrich_with_plan_file_flag v [] a = string_arg_nil _ v
  string_arg-enrich_with_plan_file_flag v (k ∷ ks) a =
      string_arg_cons _ v k ks (get_key-enrich_with_plan_file_flag v k a.0)
        (string_arg-enrich_with_plan_file_flag v ks a.1)

  edit_action-enrich :
      (id : Text) (v : Json)
      → edit_action id (enrich_with_plan_file_flag is_plan_file v) ≡ edit_action id v
  unfolding edit_action text_eq
  edit_action-enrich id v =
      rw (string_arg-enrich_with_plan_file_flag v path_keys (refl, (refl, (refl, tt)))) (
        rw
          (string_arg-enrich_with_plan_file_flag v
            (codes "new_string" ∷ codes "content" ∷ codes "new_content" ∷ [])
            (refl, (refl, (refl, tt))))
          (rw
            (string_arg-enrich_with_plan_file_flag v (codes "old_string" ∷ codes "old_content" ∷ [])
              (refl, (refl, tt)))
            refl))

  write_action-enrich :
      (id : Text) (v : Json)
      → write_action id (enrich_with_plan_file_flag is_plan_file v) ≡ write_action id v
  unfolding write_action text_eq
  write_action-enrich id v =
      rw (string_arg-enrich_with_plan_file_flag v path_keys (refl, (refl, (refl, tt)))) (
        rw
          (string_arg-enrich_with_plan_file_flag v
            (codes "content" ∷ codes "new_string" ∷ codes "new_content" ∷ [])
            (refl, (refl, (refl, tt))))
          refl)

  notebook_action-enrich :
      (id : Text) (v : Json)
      → notebook_action id (enrich_with_plan_file_flag is_plan_file v) ≡ notebook_action id v
  unfolding notebook_action text_eq
  notebook_action-enrich id v =
      rw
        (string_arg-enrich_with_plan_file_flag v
          (codes "notebook_path" ∷ codes "file_path" ∷ codes "path" ∷ [])
          (refl, (refl, (refl, tt))))
        (rw
          (string_arg-enrich_with_plan_file_flag v
            (codes "new_source" ∷ codes "content" ∷ codes "new_content" ∷ [])
            (refl, (refl, (refl, tt))))
          refl)

-- Whether a file is a plan file never reaches the action: the flag is put among the arguments of
-- an `Edit`, a `Write` or a `NotebookEdit`, and no field of the action is read from it.
pub normalize_pre_tool_action_flag :
    (p q : Text → Bool) (name id cwd : Text) (input : Json)
    → normalize_pre_tool_action p name id cwd input ≡ normalize_pre_tool_action q name id cwd input
unfolding normalize_pre_tool_action
normalize_pre_tool_action_flag p q name id cwd input = rw (edit_action-enrich p id input) (
    rw (edit_action-enrich q id input) (
      rw (write_action-enrich p id input) (
        rw (write_action-enrich q id input)
          (rw (notebook_action-enrich p id input) (rw (notebook_action-enrich q id input) refl)))))
