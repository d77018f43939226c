-- ===== src/Cedar/Shell/Walk/Peeled.antt =====
-- Completeness of `peel_wrapper` and of the `-c` script search.
use sondera_coding_agent_hoo.Prelude.{
  ℕ, zero, suc, ◌+◌, ◌≤◌, ◌≡◌, refl, sym, ◌∙◌, ap, Bool, true, false, ◌&&◌, some, List, [], ◌∷◌,
  inl, inr, Has, Option-cases, if◌then◌else◌, arith,
}
use sondera_coding_agent_hoo.Prelude.Text.{Text, codes, text_eq, is_empty}
use sondera_coding_agent_hoo.Prelude.Unicode.{Unicode}
use sondera_coding_agent_hoo.Cedar.Shell.Tables.{
  Wrapper, is_flag_token, wrapper_flag_consumes_value,
}
use sondera_coding_agent_hoo.Cedar.Shell.Words.{is_env_assignment, normalize_program}
use sondera_coding_agent_hoo.Cedar.Shell.Node.{Node, literal_text}
use sondera_coding_agent_hoo.Cedar.Shell.Record.{ShellParse}
use sondera_coding_agent_hoo.Cedar.Shell.Record.Growth.{Grows-insert_program}
use sondera_coding_agent_hoo.Cedar.Shell.Walk.{
  Walker, find_c_script, find_c_script_from, PeelStep, next, stop, visit_value, peel_positional,
  peel_option, peel_token, peel_from,
}
use sondera_coding_agent_hoo.Cedar.Shell.Walk.Grow.{WalkerGrows, Grows-peel_from}
use sondera_coding_agent_hoo.Cedar.Shell.Walk.Finds.{
  Finds, Finds-grow, IsLive, WalkerFinds, visit_same, mine_args_finds, literal_of_live,
  SkipsLiteral,
}

module _ (u : Unicode) (prog : Text) (deeper : Walker) (grow : WalkerGrows deeper)
    (finds : WalkerFinds u prog deeper) (n : Node) (live : IsLive u prog n) where
  -- The consumed value of an option has been walked if it is the node.
  abbrev Heads : List Node → Type 0
  Heads [] = ⊥
  Heads (arg ∷ rest) = n ≡ arg

  abbrev Pending : Bool → List Node → ShellParse → Type 0
  Pending v rest p = v ≡ true → Heads rest → Finds prog p

  abbrev StepFinds : List Node → PeelStep → Type 0
  StepFinds rest (next v s e q) = Has n rest × Pending v rest q
  StepFinds rest (stop q) = Finds prog q

  StepFinds-if :
      (rest : List Node) (s t : PeelStep) (b : Bool)
      → StepFinds rest s
      → StepFinds rest t
      → StepFinds rest (if b then s else t)
  StepFinds-if rest s t true h k = h
  StepFinds-if rest s t false h k = k

  visit_value-Pending :
      (rest : List Node) (p : ShellParse) → Pending true rest (visit_value deeper rest p)
  unfolding visit_value
  visit_value-Pending [] p t h = elim h [ ]
  visit_value-Pending (value ∷ rest) p t e =
      rw (ap literal_text (sym e) ∙ live.0, visit_value)
        (visit_same u prog deeper grow finds n value p live.1 e)

  Pending-false : (rest : List Node) (p : ShellParse) → Pending false rest p
  Pending-false rest p t h = absurd_false t
    where
      absurd_false : false ≡ true → Finds prog p
      absurd_false e = cc

  peel_positional_finds :
      (w : Wrapper) (skip : ℕ) (ended : Bool) (arg : Node) (text : Text) (rest : List Node)
      (p : ShellParse)
      → Has n rest
      → StepFinds rest (peel_positional u deeper w skip ended arg text rest p)
  unfolding peel_positional
  peel_positional_finds w (suc skip) ended arg text rest p h = (h, Pending-false rest _)
  peel_positional_finds w zero ended arg text rest p h =
      StepFinds-if rest _ _ (is_empty (normalize_program u text)) (h, Pending-false rest _)
        (Finds-grow u prog (Grows-insert_program _ _) (finds.classify n _ rest p live h))

  peel_option_finds :
      (w : Wrapper) (skip : ℕ) (arg : Node) (text : Text) (rest : List Node) (p : ShellParse)
      → Has n rest
      → StepFinds rest (peel_option u deeper w skip arg text rest p)
  unfolding peel_option
  peel_option_finds w skip arg text rest p h =
      StepFinds-if rest _ _ (text_eq text (codes "--")) (h, Pending-false rest _)
        (StepFinds-if rest _ _ (text_eq w.name (codes "env") && is_env_assignment text)
          (h, Pending-false rest _)
          (StepFinds-if rest _ _ (is_flag_token text)
            (StepFinds-if rest _ _ (wrapper_flag_consumes_value w text)
              (h, visit_value-Pending rest _) (h, Pending-false rest _))
            (peel_positional_finds w skip false arg text rest p h)))

  Has-rest :
      (arg : Node) (rest : List Node) {text : Text}
      → Has n (arg ∷ rest)
      → literal_text arg ≡ some text
      → Has n rest
  Has-rest arg rest (inl e) f = absurd (literal_of_live u prog deeper grow finds n live e f)
  Has-rest arg rest (inr h) f = h

  peel_token_finds :
      (w : Wrapper) (skip : ℕ) (ended : Bool) (arg : Node) (rest : List Node) (p : ShellParse)
      → Has n (arg ∷ rest)
      → StepFinds rest (peel_token u deeper w skip ended arg rest p)
  unfolding peel_token
  peel_token_finds w skip ended arg rest p h = elim (Option-cases (literal_text arg)) [
    | inl e ↦
        rw (e, peel_token) (mine_args_finds u prog deeper grow finds n (arg ∷ rest) _ live.1 h)
    | inr (text, e) ↦
        rw (e, peel_token)
          (StepFinds-if rest _ _ ended
            (peel_positional_finds w skip true arg text rest p (Has-rest arg rest h e))
            (peel_option_finds w skip arg text rest p (Has-rest arg rest h e)))
  ]

  peel_rest_finds :
      (w : Wrapper) (rest : List Node) (step : PeelStep)
      → StepFinds rest step
      → ((v : Bool) (s : ℕ) (e : Bool) (q : ShellParse)
          → Has n rest
          → Pending v rest q
          → Finds prog (peel_from u deeper w v s e rest q))
      → Finds prog (elim step [ stop q ↦ q | next v s e q ↦ peel_from u deeper w v s e rest q ])
  peel_rest_finds w rest (next v s e q) (h, k) all = all v s e q h k
  peel_rest_finds w rest (stop q) f all = f

  pub peel_from_finds :
      (w : Wrapper) (value : Bool) (skip : ℕ) (ended : Bool) (args : List Node) (p : ShellParse)
      → Has n args
      → Pending value args p
      → Finds prog (peel_from u deeper w value skip ended args p)
  unfolding peel_from
  peel_from_finds w value skip ended [] p h k = elim h [ ]
  peel_from_finds w true skip ended (arg ∷ rest) p (inl e) k =
      Finds-grow u prog (Grows-peel_from u deeper grow w false skip ended rest p) (k refl e)
  peel_from_finds w true skip ended (arg ∷ rest) p (inr h) k =
      peel_from_finds w false skip ended rest p h (Pending-false rest p)
  peel_from_finds w false skip ended (arg ∷ rest) p h k =
      peel_rest_finds w rest (peel_token u deeper w skip ended arg rest p)
        (peel_token_finds w skip ended arg rest p h) (λ v s e q. peel_from_finds w v s e rest q)

find_c_script_from-ge :
    (idx : ℕ) (seen : Bool) (args : List Node) (j : ℕ) (script : Text)
    → find_c_script_from idx seen args ≡ some (j, script)
    → idx ≤ j
unfolding find_c_script_from
find_c_script_from-ge idx seen [] j script h = cc
find_c_script_from-ge idx seen (arg ∷ args) j script h = ground (
  arith,
  find_c_script_from-ge (suc idx) seen args j script,
  find_c_script_from-ge (suc idx) true args j script,
)

find_c_script_from_literal :
    (idx : ℕ) (seen : Bool) (args : List Node) (j k : ℕ) (script : Text)
    → find_c_script_from idx seen args ≡ some (j, script)
    → j ≡ idx + k
    → SkipsLiteral (some k) args
unfolding find_c_script_from
find_c_script_from_literal idx seen [] j k script h e = cc
find_c_script_from_literal idx seen (arg ∷ args) j zero script h e =
    ground (arith, find_c_script_from-ge (suc idx) seen args j script)
find_c_script_from_literal idx seen (arg ∷ args) j (suc k) script h e = ground (
  arith,
  find_c_script_from_literal (suc idx) seen args j k script,
  find_c_script_from_literal (suc idx) true args j k script,
)

pub find_c_script_literal :
    (args : List Node) (k : ℕ) (script : Text)
    → find_c_script args ≡ some (k, script)
    → SkipsLiteral (some k) args
unfolding find_c_script
find_c_script_literal args k script h =
    find_c_script_from_literal 0 false args k k script h (omega arith)
