-- ===== src/Cedar/Shell/Walk/Grow.antt =====
-- Every step of the walk only adds to the parse, and only lowers `ok`.
use sondera_coding_agent_hoo.Prelude.{
  ℕ, zero, suc, ◌≡◌, refl, Bool, true, false, ◌&&◌, Option, none, some, List, [], ◌∷◌, inl, inr,
  Bool-cases, Option-cases, if◌then◌else◌,
}
use sondera_coding_agent_hoo.Prelude.Text.{Text, codes, text_eq, is_empty}
use sondera_coding_agent_hoo.Prelude.Unicode.{Unicode}
use sondera_coding_agent_hoo.Cedar.Shell.Tables.{
  Wrapper, is_flag_token, wrapper_flag_consumes_value,
}
use sondera_coding_agent_hoo.Cedar.Shell.Words.{is_env_assignment, normalize_program}
use sondera_coding_agent_hoo.Cedar.Shell.Node.{Kind, Node, literal_text}
use sondera_coding_agent_hoo.Cedar.Shell.Record.{ShellParse, insert_flag}
use sondera_coding_agent_hoo.Cedar.Shell.Record.Order.{Grows, Grows-refl, Grows-trans, Grows-merge}
use sondera_coding_agent_hoo.Cedar.Shell.Record.Growth.{
  Grows_bools, Grows-insert_program, Grows-insert_arg, Grows-insert_flag,
}
use sondera_coding_agent_hoo.Cedar.Shell.Walk.{
  Walker, Reparse, truncate, mine_args, reparse_script, PeelStep, next, stop, literal_parts_of,
  eval_parts, handle_eval, file_flag_or_arg, classify_arg, classify_args, visit_value,
  peel_positional, peel_option, peel_token, peel_from, mark,
}

pub record WalkerGrows (w : Walker) : Type 0 where
  pub visit : (n : Node) (p : ShellParse) → Grows p (w.visit n p)
  pub classify :
      (prog : Text) (args : List Node) (p : ShellParse) → Grows p (w.classify prog args p)

pub Grows-truncate : (p : ShellParse) → Grows p (truncate p)
Grows-truncate p =
    Grows_bools p false _ _ _ _ (λ h. absurd_bool h) (λ h. h) (λ h. h) (λ h. h) (λ h. h)
  where
    absurd_bool : false ≡ true → p.ok ≡ true
    absurd_bool h = cc

pub Grows-dynamic : (p : ShellParse) → Grows p (record p { has_dynamic_command = true })
Grows-dynamic p = Grows_bools p _ true _ _ _ (λ h. h) (λ h. refl) (λ h. h) (λ h. h) (λ h. h)

pub Grows-reparse_script :
    (reparse : Reparse) (script : Text) (p : ShellParse) → Grows p (reparse_script reparse script p)
unfolding reparse_script
Grows-reparse_script none script p = Grows-truncate p
Grows-reparse_script (some parse) script p = Grows-merge p (parse script)

pub Grows-mark : (k : Kind) (p : ShellParse) → Grows p (mark k p)
unfolding mark
Grows-mark Kind.pipeline p =
    Grows_bools p _ _ _ true _ (λ h. h) (λ h. h) (λ h. h) (λ h. refl) (λ h. h)
Grows-mark Kind.command_substitution p =
    Grows_bools p _ _ true _ _ (λ h. h) (λ h. h) (λ h. refl) (λ h. h) (λ h. h)
Grows-mark Kind.process_substitution p =
    Grows_bools p _ _ true _ _ (λ h. h) (λ h. h) (λ h. refl) (λ h. h) (λ h. h)
Grows-mark Kind.file_redirect p =
    Grows_bools p _ _ _ _ true (λ h. h) (λ h. h) (λ h. h) (λ h. h) (λ h. refl)
Grows-mark Kind.heredoc_redirect p =
    Grows_bools p _ _ _ _ true (λ h. h) (λ h. h) (λ h. h) (λ h. h) (λ h. refl)
Grows-mark Kind.herestring_redirect p =
    Grows_bools p _ _ _ _ true (λ h. h) (λ h. h) (λ h. h) (λ h. h) (λ h. refl)
Grows-mark _ p = Grows-refl p

-- What a step of `peel_wrapper` has recorded.
abbrev pub recorded : PeelStep → ShellParse
recorded (next v s e q) = q
recorded (stop q) = q

recorded-if :
    {p : ShellParse} (s t : PeelStep) (b : Bool)
    → Grows p (recorded s)
    → Grows p (recorded t)
    → Grows p (recorded (if b then s else t))
recorded-if s t true h k = h
recorded-if s t false h k = k

module _ (u : Unicode) (deeper : Walker) (grow : WalkerGrows deeper) where
  pub Grows-mine_args : (args : List Node) (p : ShellParse) → Grows p (mine_args deeper args p)
  unfolding mine_args
  Grows-mine_args [] p = Grows-refl p
  Grows-mine_args (arg ∷ args) p = Grows-trans (grow.visit arg p) (Grows-mine_args args _)

  pub Grows-literal_parts_of :
      (args : List Node) (parts : List Text) (p : ShellParse)
      → Grows p (literal_parts_of deeper args parts p).1
  unfolding literal_parts_of
  Grows-literal_parts_of [] parts p = Grows-refl p
  Grows-literal_parts_of (arg ∷ args) parts p = elim (Option-cases (literal_text arg)) [
    | inl e ↦
        rw (e, literal_parts_of)
          (Grows-trans (grow.visit arg p) (Grows-literal_parts_of args parts _))
    | inr (text, e) ↦ rw (e, literal_parts_of) (Grows-literal_parts_of args _ p)
  ]

  pub Grows-eval_parts :
      (reparse : Reparse) (parts : List Text) (p : ShellParse)
      → Grows p (eval_parts reparse parts p)
  unfolding eval_parts
  Grows-eval_parts reparse [] p = Grows-refl p
  Grows-eval_parts reparse (t ∷ parts) p = Grows-reparse_script reparse _ p

  pub Grows-handle_eval :
      (reparse : Reparse) (args : List Node) (p : ShellParse)
      → Grows p (handle_eval deeper reparse args p)
  unfolding handle_eval
  Grows-handle_eval reparse args p =
      Grows-trans (Grows-literal_parts_of args [] p) (Grows-eval_parts reparse _ _)

  Grows-file_flag_or_arg :
      (prog : Text) (arg : Node) (text : Text) (only : Bool) (p : ShellParse)
      → Grows p (file_flag_or_arg u prog arg text only p).1
  unfolding file_flag_or_arg
  Grows-file_flag_or_arg prog arg text true p = Grows-insert_arg u prog text _ p
  Grows-file_flag_or_arg prog arg text false p = elim (Bool-cases (text_eq text (codes "--"))) [
    | inl e ↦ rw e (Grows-refl p)
    | inr e ↦ rw e (elim (Bool-cases (is_flag_token text)) [
      | inl f ↦ rw f (Grows-insert_flag u prog text p)
      | inr f ↦ rw f (Grows-insert_arg u prog text _ p)
    ])
  ]

  pub Grows-classify_arg :
      (prog : Text) (arg : Node) (only : Bool) (p : ShellParse)
      → Grows p (classify_arg u deeper prog arg only p).1
  unfolding classify_arg
  Grows-classify_arg prog arg only p = elim (Option-cases (literal_text arg)) [
    | inl e ↦ rw (e, classify_arg) (grow.visit arg p)
    | inr (text, e) ↦ rw (e, classify_arg) (Grows-file_flag_or_arg prog arg text only p)
  ]

  pub Grows-classify_args :
      (prog : Text) (skip : Option ℕ) (only : Bool) (args : List Node) (p : ShellParse)
      → Grows p (classify_args u deeper prog skip only args p)
  unfolding classify_args
  Grows-classify_args prog skip only [] p = Grows-refl p
  Grows-classify_args prog (some zero) only (arg ∷ args) p =
      Grows-classify_args prog none only args p
  Grows-classify_args prog (some (suc k)) only (arg ∷ args) p =
      Grows-trans (Grows-classify_arg prog arg only p) (Grows-classify_args prog (some k) _ args _)
  Grows-classify_args prog none only (arg ∷ args) p =
      Grows-trans (Grows-classify_arg prog arg only p) (Grows-classify_args prog none _ args _)

  Grows-visit_value : (rest : List Node) (p : ShellParse) → Grows p (visit_value deeper rest p)
  unfolding visit_value
  Grows-visit_value [] p = Grows-refl p
  Grows-visit_value (value ∷ rest) p = elim (Option-cases (literal_text value)) [
    | inl e ↦ rw (e, visit_value) (grow.visit value p)
    | inr (text, e) ↦ rw (e, visit_value) (Grows-refl p)
  ]

  Grows-peel_positional :
      (w : Wrapper) (skip : ℕ) (ended : Bool) (arg : Node) (text : Text) (rest : List Node)
      (p : ShellParse)
      → Grows p (recorded (peel_positional u deeper w skip ended arg text rest p))
  unfolding peel_positional
  Grows-peel_positional w (suc skip) ended arg text rest p = Grows-insert_arg u w.name text _ p
  Grows-peel_positional w zero ended arg text rest p =
      elim (Bool-cases (is_empty (normalize_program u text))) [
        | inl e ↦ rw e (Grows-insert_arg u w.name text _ p)
        | inr e ↦ rw e (Grows-trans (grow.classify _ rest p) (Grows-insert_program _ _))
      ]

  Grows-peel_flag :
      (w : Wrapper) (skip : ℕ) (text : Text) (rest : List Node) (p : ShellParse) (consumes : Bool)
      → Grows p (
          recorded (
            if consumes
            then next true skip false (visit_value deeper rest (insert_flag u w.name text p))
            else next false skip false (insert_flag u w.name text p)))
  Grows-peel_flag w skip text rest p true =
      Grows-trans (Grows-insert_flag u w.name text p) (Grows-visit_value rest _)
  Grows-peel_flag w skip text rest p false = Grows-insert_flag u w.name text p

  Grows-peel_option :
      (w : Wrapper) (skip : ℕ) (arg : Node) (text : Text) (rest : List Node) (p : ShellParse)
      → Grows p (recorded (peel_option u deeper w skip arg text rest p))
  unfolding peel_option
  Grows-peel_option w skip arg text rest p =
      recorded-if _ _ (text_eq text (codes "--")) (Grows-refl p) (
        recorded-if _ _ (text_eq w.name (codes "env") && is_env_assignment text) (Grows-refl p) (
          recorded-if _ _ (is_flag_token text)
            (Grows-peel_flag w skip text rest p (wrapper_flag_consumes_value w text))
            (Grows-peel_positional w skip false arg text rest p)))

  pub Grows-peel_token :
      (w : Wrapper) (skip : ℕ) (ended : Bool) (arg : Node) (rest : List Node) (p : ShellParse)
      → Grows p (recorded (peel_token u deeper w skip ended arg rest p))
  unfolding peel_token
  Grows-peel_token w skip ended arg rest p = elim (Option-cases (literal_text arg)) [
    | inl e ↦ rw (e, peel_token) (Grows-trans (Grows-dynamic p) (Grows-mine_args (arg ∷ rest) _))
    | inr (text, e) ↦
        rw (e, peel_token)
          (recorded-if _ _ ended (Grows-peel_positional w skip true arg text rest p)
            (Grows-peel_option w skip arg text rest p))
  ]

  peel_rest :
      (w : Wrapper) (rest : List Node) (p : ShellParse) (step : PeelStep)
      → Grows p (recorded step)
      → ((v : Bool) (s : ℕ) (e : Bool) (q : ShellParse)
          → Grows q (peel_from u deeper w v s e rest q))
      → Grows p (elim step [ stop q ↦ q | next v s e q ↦ peel_from u deeper w v s e rest q ])
  peel_rest w rest p (next v s e q) h k = Grows-trans h (k v s e q)
  peel_rest w rest p (stop q) h k = h

  pub Grows-peel_from :
      (w : Wrapper) (value : Bool) (skip : ℕ) (ended : Bool) (args : List Node) (p : ShellParse)
      → Grows p (peel_from u deeper w value skip ended args p)
  unfolding peel_from
  Grows-peel_from w value skip ended [] p = Grows-refl p
  Grows-peel_from w true skip ended (arg ∷ rest) p = Grows-peel_from w false skip ended rest p
  Grows-peel_from w false skip ended (arg ∷ rest) p =
      peel_rest w rest p (peel_token u deeper w skip ended arg rest p)
        (Grows-peel_token w skip ended arg rest p) (λ v s e q. Grows-peel_from w v s e rest q)
