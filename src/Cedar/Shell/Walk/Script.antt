-- ===== src/Cedar/Shell/Walk/Script.antt =====
-- Scripts that a command runs through `bash -c` or `eval`, and the order of the sets in a result
-- (crates/policy/cedar/src/shell_parse.rs).
use sondera_coding_agent_hoo.Prelude.{
  ℕ, ◌≡◌, refl, sym, ◌∙◌, ap, Bool, true, false, ◌||◌, Option, none, some, List, ◌⊎◌, [], ◌∷◌, inl,
  inr, Has, Option-cases, ◌≢◌, zero, suc, ◌++◌,
}
use sondera_coding_agent_hoo.Prelude.Text.{Text, codes, text_eq, contains_text, text_eq→eq}
use sondera_coding_agent_hoo.Prelude.Unicode.{Unicode}
use sondera_coding_agent_hoo.Cedar.Shell.Tables.{wrapper_spec, is_shell}
use sondera_coding_agent_hoo.Cedar.Shell.Node.{Node, Tree, literal_text}
use sondera_coding_agent_hoo.Cedar.Shell.Record.{ShellParse}
use sondera_coding_agent_hoo.Cedar.Shell.Record.Order.{Holds, Holds-trans, Holds-merge_right}
use sondera_coding_agent_hoo.Cedar.Shell.Walk.{
  Walker, Reparse, reparse_script, truncate, find_c_script, literal_parts_of, join_space,
  handle_eval, eval_parts, classify_args, classify_shell, classify_invocation, walker,
  parse_with_depth,
}
use sondera_coding_agent_hoo.Cedar.Shell.Walk.Grow.{Grows-classify_args}
use sondera_coding_agent_hoo.Cedar.Shell.Walk.GrowAll.{walker-WalkerGrows}
use sondera_coding_agent_hoo.Cedar.Shell.Walk.Occurs.{Occurs}
use sondera_coding_agent_hoo.Cedar.Shell.Walk.Finds.{Finds}
use sondera_coding_agent_hoo.Cedar.Shell.Walk.Complete.{parse_once_finds}

-- A shell is neither a wrapper nor `eval`, so its arguments reach the search for a script.
abbrev IsPlainProgram : Text → Type 0
IsPlainProgram prog = (wrapper_spec prog ≡ none) × (text_eq prog (codes "eval") ≡ false)

plain_at : (name prog : Text) → IsPlainProgram name → text_eq name prog ≡ true → IsPlainProgram prog
plain_at name prog h e = rw (← text_eq→eq name prog e) h

plain_of_shell : (prog : Text) → is_shell prog ≡ true → IsPlainProgram prog
unfolding is_shell wrapper_spec contains_text text_eq
plain_of_shell prog h = elim (any_cases (text_eq (codes "bash") prog) _ h) [
  | inl e ↦ plain_at (codes "bash") prog (refl, refl) e
  | inr h ↦ elim (any_cases (text_eq (codes "sh") prog) _ h) [
    | inl e ↦ plain_at (codes "sh") prog (refl, refl) e
    | inr h ↦ elim (any_cases (text_eq (codes "zsh") prog) _ h) [
      | inl e ↦ plain_at (codes "zsh") prog (refl, refl) e
      | inr h ↦ elim (any_cases (text_eq (codes "dash") prog) _ h) [
        | inl e ↦ plain_at (codes "dash") prog (refl, refl) e
        | inr h ↦ elim (any_cases (text_eq (codes "ash") prog) _ h) [
          | inl e ↦ plain_at (codes "ash") prog (refl, refl) e
          | inr h ↦ absurd_false h
        ]
      ]
    ]
  ]
]
  where
    any_cases : (a b : Bool) → (a || b) ≡ true → (a ≡ true) ⊎ (b ≡ true)
    any_cases true b e = inl refl
    any_cases false b e = inr e

    absurd_false : false ≡ true → IsPlainProgram prog
    absurd_false e = cc

shell_invocation :
    (u : Unicode) (deeper : Walker) (reparse : Reparse) (prog : Text) (args : List Node)
    (p : ShellParse) (idx : ℕ) (script : Text)
    → is_shell prog ≡ true
    → find_c_script args ≡ some (idx, script)
    → classify_invocation u deeper reparse prog args p
      ≡ classify_args u deeper prog (some idx) false args (reparse_script reparse script p)
unfolding classify_invocation classify_shell
shell_invocation u deeper reparse prog args p idx script h e =
    let (a, b) = plain_of_shell prog h in
    rw (a, classify_invocation) (rw b (rw h (rw (e, classify_shell) refl)))

eval_invocation :
    (u : Unicode) (deeper : Walker) (reparse : Reparse) (args : List Node) (p : ShellParse)
    → classify_invocation u deeper reparse (codes "eval") args p ≡ handle_eval deeper reparse args p
unfolding classify_invocation wrapper_spec text_eq
eval_invocation u deeper reparse args p = refl

-- What `eval` records is what the merge with its joined words records.
eval_script :
    (deeper : Walker) (reparse : Reparse) (args : List Node) (p : ShellParse) (t : Text)
    (parts : List Text)
    → (literal_parts_of deeper args [] p).0 ≡ t ∷ parts
    → handle_eval deeper reparse args p
      ≡ reparse_script reparse (join_space (t ∷ parts)) (literal_parts_of deeper args [] p).1
unfolding handle_eval eval_parts
eval_script deeper reparse args p t parts e = rw e refl

-- The loop of `eval` collects the literal arguments in order.
abbrev pub literals : List Node → List Text
literals [] = []
literals (arg ∷ args) = elim (literal_text arg) [
  | none ↦ literals args
  | some t ↦ t ∷ literals args
]

append_assoc : (xs : List Text) (t : Text) (ys : List Text) → (xs ++ t ∷ []) ++ ys ≡ xs ++ t ∷ ys
append_assoc [] t ys = refl
append_assoc (x ∷ xs) t ys = ap (λ r. x ∷ r) (append_assoc xs t ys)

append_nil : (xs : List Text) → xs ++ [] ≡ xs
append_nil [] = refl
append_nil (x ∷ xs) = ap (λ r. x ∷ r) (append_nil xs)

literal_parts_of_lem :
    (deeper : Walker) (args : List Node) (parts : List Text) (p : ShellParse)
    → (literal_parts_of deeper args parts p).0 ≡ parts ++ literals args
unfolding literal_parts_of
literal_parts_of_lem deeper [] parts p = sym (append_nil parts)
literal_parts_of_lem deeper (arg ∷ args) parts p = elim (Option-cases (literal_text arg)) [
  | inl e ↦ rw (e, literal_parts_of) (rw (e, literals) (literal_parts_of_lem deeper args parts _))
  | inr (t, e) ↦
      rw (e, literal_parts_of)
        (rw (e, literals)
          (literal_parts_of_lem deeper args (parts ++ t ∷ []) p
            ∙ append_assoc parts t (literals args)))
]

module _ (u : Unicode) (parse : Text → Option Tree) (room : ℕ) where
  -- The walk while `left` re-parses are left below it.
  abbrev scripts : ℕ → Reparse
  scripts left = some (parse_with_depth u parse left)

  script_finds :
      (left : ℕ) (inner script : Text) (tree : Tree)
      → parse script ≡ some tree
      → Occurs u inner tree.root
      → Finds inner (parse_with_depth u parse left script)
  unfolding parse_with_depth
  script_finds zero inner script tree e o = parse_once_finds u inner parse none script tree e o
  script_finds (suc left) inner script tree e o =
      parse_once_finds u inner parse (scripts left) script tree e o

  shell_holds :
      (left : ℕ) (prog : Text) (args : List Node) (p : ShellParse) (idx : ℕ) (script : Text)
      → is_shell prog ≡ true
      → find_c_script args ≡ some (idx, script)
      → Holds
          (parse_with_depth u parse left script)
          (classify_invocation u (walker u (scripts left) room) (scripts left) prog args p)
  unfolding reparse_script
  shell_holds left prog args p idx script h e =
      rw
        (shell_invocation u (walker u (scripts left) room) (scripts left) prog args p idx script h
          e)
        (Holds-trans (Holds-merge_right p _)
          (Grows-classify_args u _ (walker-WalkerGrows u (scripts left) room) prog (some idx) false
            args _).holds)

  -- `bash -c '...'` cannot hide a program: where a shell is given a literal `-c` script, re-parses
  -- are left and the result is `ok`, each program that occurs in the syntax tree of the script is
  -- in `programs`.
  pub shell_script_complete :
      (left : ℕ) (prog : Text) (args : List Node) (p : ShellParse) (idx : ℕ) (script inner : Text)
      (tree : Tree)
      → is_shell prog ≡ true
      → find_c_script args ≡ some (idx, script)
      → parse script ≡ some tree
      → Occurs u inner tree.root
      → (classify_invocation u (walker u (scripts left) room) (scripts left) prog args p).ok ≡ true
      → Has inner
          (classify_invocation u (walker u (scripts left) room) (scripts left) prog args p).programs
  shell_script_complete left prog args p idx script inner tree h e f o ok =
      let held = shell_holds left prog args p idx script h e in
      held.programs inner ((script_finds left inner script tree f o).found (held.ok ok))

  eval_holds :
      (left : ℕ) (args : List Node) (p : ShellParse) (t : Text) (parts : List Text)
      → literals args ≡ t ∷ parts
      → Holds
          (parse_with_depth u parse left (join_space (t ∷ parts)))
          (handle_eval (walker u (scripts left) room) (scripts left) args p)
  unfolding reparse_script
  eval_holds left args p t parts e =
      rw
        (eval_script (walker u (scripts left) room) (scripts left) args p t parts
          (literal_parts_of_lem _ args [] p ∙ e))
        (Holds-merge_right _ _)

  -- `eval ...` cannot hide a program: where `eval` has literal arguments, re-parses are left and
  -- the result is `ok`, each program that occurs in the syntax tree of these arguments, joined by
  -- spaces, is in `programs`.
  pub eval_script_complete :
      (left : ℕ) (args : List Node) (p : ShellParse) (t inner : Text) (parts : List Text)
      (tree : Tree)
      → literals args ≡ t ∷ parts
      → parse (join_space (t ∷ parts)) ≡ some tree
      → Occurs u inner tree.root
      → (classify_invocation u
          (walker u (scripts left) room)
          (scripts left)
          (codes "eval")
          args
          p).ok
        ≡ true
      → Has inner
          (classify_invocation u
            (walker u (scripts left) room)
            (scripts left)
            (codes "eval")
            args
            p).programs
  eval_script_complete left args p t inner parts tree e f o =
      rw (eval_invocation u (walker u (scripts left) room) (scripts left) args p) (λ ok.
        let held = eval_holds left args p t parts e in
        held.programs inner ((script_finds left inner _ tree f o).found (held.ok ok)))

  not_truncated : (p : ShellParse) → (truncate p).ok ≡ true → ⊥
  not_truncated p h = cc

  -- A script that is nested too deep is not passed over: where no re-parse is left, a shell with
  -- a literal `-c` script, and `eval` with a literal argument, give a result that is not `ok`.
  pub script_too_deep :
      (prog : Text) (args : List Node) (p : ShellParse) (idx : ℕ) (script : Text)
      → ((is_shell prog ≡ true)
          → (find_c_script args ≡ some (idx, script))
          → (classify_invocation u (walker u none room) none prog args p).ok ≢ true)
        × ((t : Text) (parts : List Text)
            → literals args ≡ t ∷ parts
            → (classify_invocation u (walker u none room) none (codes "eval") args p).ok ≢ true)
  unfolding reparse_script
  script_too_deep prog args p idx script = (
    λ h e. rw (shell_invocation u (walker u none room) none prog args p idx script h e) (λ ok.
        not_truncated p (
          (Grows-classify_args u _ (walker-WalkerGrows u none room) prog (some idx) false args
              _).holds.ok
            ok)),
    λ t parts e. rw (eval_invocation u (walker u none room) none args p) (
        rw
          (eval_script (walker u none room) none args p t parts
            (literal_parts_of_lem _ args [] p ∙ e))
          (not_truncated (literal_parts_of (walker u none room) args [] p).1)),
  )
