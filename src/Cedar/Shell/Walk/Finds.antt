-- ===== src/Cedar/Shell/Walk/Finds.antt =====
-- Completeness of the walk: where the result is `ok`, no program that occurs is missing.
use sondera_coding_agent_hoo.Prelude.{
  ℕ, zero, suc, ◌≡◌, ◌≢◌, sym, ◌∙◌, ap, Bool, true, false, Option, none, some, List, [], ◌∷◌, inl,
  inr, Has, Option-cases, if◌then◌else◌,
}
use sondera_coding_agent_hoo.Prelude.Text.{Text}
use sondera_coding_agent_hoo.Prelude.Unicode.{Unicode}
use sondera_coding_agent_hoo.Cedar.Shell.Node.{Node, literal_text}
use sondera_coding_agent_hoo.Cedar.Shell.Record.{ShellParse}
use sondera_coding_agent_hoo.Cedar.Shell.Record.Order.{Grows}
use sondera_coding_agent_hoo.Cedar.Shell.Walk.{
  Walker, Reparse, stopped, mine_args, literal_parts_of, handle_eval, classify_arg, classify_args,
}
use sondera_coding_agent_hoo.Cedar.Shell.Walk.Grow.{
  WalkerGrows, Grows-mine_args, Grows-literal_parts_of, Grows-eval_parts, Grows-classify_args,
}
use sondera_coding_agent_hoo.Cedar.Shell.Walk.Occurs.{Occurs}

pub record Finds (prog : Text) (p : ShellParse) : Type 0 where
  pub found : p.ok ≡ true → Has prog p.programs

-- The argument that is left out is a literal one.
abbrev pub SkipsLiteral : Option ℕ → List Node → Type 0
SkipsLiteral skip [] = Unit
SkipsLiteral none (arg ∷ args) = Unit
SkipsLiteral (some zero) (arg ∷ args) = literal_text arg ≢ none
SkipsLiteral (some (suc k)) (arg ∷ args) = SkipsLiteral (some k) args

pub SkipsLiteral-none : (args : List Node) → SkipsLiteral none args
SkipsLiteral-none [] = tt
SkipsLiteral-none (arg ∷ args) = tt

module _ (u : Unicode) (prog : Text) where
  pub Finds-grow : {p q : ShellParse} → Grows p q → Finds prog p → Finds prog q
  Finds-grow g h = record { found = λ ok. g.programs prog (h.found (g.ok ok)) }

  pub Finds-if :
      (q r : ShellParse) (b : Bool) → Finds prog q → Finds prog r → Finds prog (if b then q else r)
  Finds-if q r true h k = h
  Finds-if q r false h k = k

  -- A dynamic node that holds the program.
  abbrev pub IsLive : Node → Type 0
  IsLive n = (literal_text n ≡ none) × Occurs u prog n

  pub record WalkerFinds (w : Walker) : Type 0 where
    pub visit : (n : Node) (p : ShellParse) → Occurs u prog n → Finds prog (w.visit n p)
    pub classify :
        (n : Node) (name : Text) (args : List Node) (p : ShellParse)
        → IsLive n
        → Has n args
        → Finds prog (w.classify name args p)

  pub stopped-WalkerFinds : WalkerFinds stopped
  stopped-WalkerFinds = record {
    visit = λ n p o. record { found = λ ok. cc };
    classify = λ n name args p l h. record { found = λ ok. cc };
  }

  module _ (deeper : Walker) (grow : WalkerGrows deeper) (finds : WalkerFinds deeper)
      (n : Node) where
    pub visit_same :
        (m : Node) (p : ShellParse) → Occurs u prog n → n ≡ m → Finds prog (deeper.visit m p)
    visit_same m p o e = rw (← e) (finds.visit n p o)

    pub mine_args_finds :
        (args : List Node) (p : ShellParse)
        → Occurs u prog n
        → Has n args
        → Finds prog (mine_args deeper args p)
    unfolding mine_args
    mine_args_finds [] p o h = elim h [ ]
    mine_args_finds (arg ∷ args) p o (inl e) =
        Finds-grow (Grows-mine_args u deeper grow args _) (visit_same arg p o e)
    mine_args_finds (arg ∷ args) p o (inr h) = mine_args_finds args _ o h

    pub literal_of_live :
        {m : Node} {text : Text} → IsLive n → n ≡ m → literal_text m ≡ some text → ⊥
    literal_of_live l e f = cc (l.0)

    literal_parts_of_finds :
        (args : List Node) (parts : List Text) (p : ShellParse)
        → IsLive n
        → Has n args
        → Finds prog (literal_parts_of deeper args parts p).1
    unfolding literal_parts_of
    literal_parts_of_finds [] parts p l h = elim h [ ]
    literal_parts_of_finds (arg ∷ args) parts p l (inl e) =
        rw (ap literal_text (sym e) ∙ l.0, literal_parts_of)
          (Finds-grow (Grows-literal_parts_of u deeper grow args parts _) (visit_same arg p l.1 e))
    literal_parts_of_finds (arg ∷ args) parts p l (inr h) = elim (Option-cases (literal_text arg)) [
      | inl e ↦ rw (e, literal_parts_of) (literal_parts_of_finds args parts _ l h)
      | inr (text, e) ↦ rw (e, literal_parts_of) (literal_parts_of_finds args _ p l h)
    ]

    pub handle_eval_finds :
        (reparse : Reparse) (args : List Node) (p : ShellParse)
        → IsLive n
        → Has n args
        → Finds prog (handle_eval deeper reparse args p)
    unfolding handle_eval
    handle_eval_finds reparse args p l h =
        Finds-grow (Grows-eval_parts u deeper grow reparse (literal_parts_of deeper args [] p).0 _)
          (literal_parts_of_finds args [] p l h)

    classify_arg_finds :
        (prog' : Text) (arg : Node) (only : Bool) (p : ShellParse)
        → IsLive n
        → n ≡ arg
        → Finds prog (classify_arg u deeper prog' arg only p).1
    unfolding classify_arg
    classify_arg_finds prog' arg only p l e =
        rw (ap literal_text (sym e) ∙ l.0, classify_arg) (visit_same arg p l.1 e)

    pub classify_args_finds :
        (prog' : Text) (skip : Option ℕ) (only : Bool) (args : List Node) (p : ShellParse)
        → IsLive n
        → SkipsLiteral skip args
        → Has n args
        → Finds prog (classify_args u deeper prog' skip only args p)
    unfolding classify_args
    classify_args_finds prog' skip only [] p l s h = elim h [ ]
    classify_args_finds prog' (some zero) only (arg ∷ args) p l s (inl e) =
        absurd (s (ap literal_text (sym e) ∙ l.0))
    classify_args_finds prog' (some zero) only (arg ∷ args) p l s (inr h) =
        classify_args_finds prog' none only args p l (SkipsLiteral-none args) h
    classify_args_finds prog' (some (suc k)) only (arg ∷ args) p l s (inl e) =
        Finds-grow (Grows-classify_args u deeper grow prog' (some k) _ args _)
          (classify_arg_finds prog' arg only p l e)
    classify_args_finds prog' (some (suc k)) only (arg ∷ args) p l s (inr h) =
        classify_args_finds prog' (some k) _ args _ l s h
    classify_args_finds prog' none only (arg ∷ args) p l s (inl e) =
        Finds-grow (Grows-classify_args u deeper grow prog' none _ args _)
          (classify_arg_finds prog' arg only p l e)
    classify_args_finds prog' none only (arg ∷ args) p l s (inr h) =
        classify_args_finds prog' none _ args _ l (SkipsLiteral-none args) h
