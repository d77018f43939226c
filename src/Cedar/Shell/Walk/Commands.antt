-- ===== src/Cedar/Shell/Walk/Commands.antt =====
-- Completeness of `handle_command` of crates/policy/cedar/src/shell_parse.rs: its parts and its arguments.
use sondera_coding_agent_hoo.Prelude.{
  ◌≡◌, refl, true, false, Option, none, some, List, [], ◌∷◌, ◌++◌, inl, inr, Has, Option-cases,
}
use sondera_coding_agent_hoo.Prelude.Text.{Text, codes, text_eq, is_empty}
use sondera_coding_agent_hoo.Prelude.Unicode.{Unicode}
use sondera_coding_agent_hoo.Cedar.Shell.Tables.{wrapper_spec, is_shell}
use sondera_coding_agent_hoo.Cedar.Shell.Words.{normalize_program}
use sondera_coding_agent_hoo.Cedar.Shell.Node.{
  Node, Children, nil, child, name, argument, unnamed, literal_text,
}
use sondera_coding_agent_hoo.Cedar.Shell.Record.{ShellParse}
use sondera_coding_agent_hoo.Cedar.Shell.Record.Growth.{Grows-insert_program}
use sondera_coding_agent_hoo.Cedar.Shell.Walk.{
  Walker, Reparse, find_c_script, peel_wrapper, classify_shell, classify_invocation, command_parts,
  named_command, command_with_name,
}
use sondera_coding_agent_hoo.Cedar.Shell.Walk.Grow.{WalkerGrows}
use sondera_coding_agent_hoo.Cedar.Shell.Walk.GrowAll.{Grows-command_parts}
use sondera_coding_agent_hoo.Cedar.Shell.Walk.Occurs.{
  Part, part_here, part_there, last_name, Occurs,
}
use sondera_coding_agent_hoo.Cedar.Shell.Walk.Finds.{
  Finds, Finds-grow, Finds-if, IsLive, WalkerFinds, mine_args_finds, handle_eval_finds,
  classify_args_finds, SkipsLiteral-none,
}
use sondera_coding_agent_hoo.Cedar.Shell.Walk.Peeled.{peel_from_finds, find_c_script_literal}

pub name-command_parts :
    (deeper : Walker) (cs : Children) (found : Option Node) (args : List Node) (p : ShellParse)
    → (command_parts deeper cs found args p).0 ≡ last_name cs found
unfolding command_parts
name-command_parts deeper nil found args p = refl
name-command_parts deeper (child name true n cs) found args p =
    name-command_parts deeper cs (some n) args p
name-command_parts deeper (child argument true n cs) found args p =
    name-command_parts deeper cs found _ p
name-command_parts deeper (child unnamed true n cs) found args p =
    name-command_parts deeper cs found args _
name-command_parts deeper (child name false n cs) found args p =
    name-command_parts deeper cs found args p
name-command_parts deeper (child argument false n cs) found args p =
    name-command_parts deeper cs found args p
name-command_parts deeper (child unnamed false n cs) found args p =
    name-command_parts deeper cs found args p

Has-concat : (n : Node) (args : List Node) (m : Node) → Has n args → Has n (args ++ m ∷ [])
Has-concat n [] m h = elim h [ ]
Has-concat n (arg ∷ args) m (inl e) = inl e
Has-concat n (arg ∷ args) m (inr h) = inr (Has-concat n args m h)

Has-concat_self : (args : List Node) (m : Node) → Has m (args ++ m ∷ [])
Has-concat_self [] m = inl refl
Has-concat_self (arg ∷ args) m = inr (Has-concat_self args m)

module _ (deeper : Walker) (n : Node) where
  Has-command_parts :
      (cs : Children) (found : Option Node) (args : List Node) (p : ShellParse)
      → Has n args
      → Has n (command_parts deeper cs found args p).1
  unfolding command_parts
  Has-command_parts nil found args p h = h
  Has-command_parts (child f false m cs) found args p h = Has-command_parts cs found args p h
  Has-command_parts (child name true m cs) found args p h = Has-command_parts cs _ args p h
  Has-command_parts (child argument true m cs) found args p h =
      Has-command_parts cs found _ p (Has-concat n args m h)
  Has-command_parts (child unnamed true m cs) found args p h = Has-command_parts cs found args _ h

  pub argument-command_parts :
      (cs : Children) (found : Option Node) (args : List Node) (p : ShellParse)
      → Part argument n cs
      → Has n (command_parts deeper cs found args p).1
  unfolding command_parts
  argument-command_parts nil found args p q = elim q [ ]
  argument-command_parts (child argument true m cs) found args p part_here =
      Has-command_parts cs found _ p (Has-concat_self args m)
  argument-command_parts (child f false m cs) found args p (part_there q) =
      argument-command_parts cs found args p q
  argument-command_parts (child name true m cs) found args p (part_there q) =
      argument-command_parts cs _ args p q
  argument-command_parts (child argument true m cs) found args p (part_there q) =
      argument-command_parts cs found _ p q
  argument-command_parts (child unnamed true m cs) found args p (part_there q) =
      argument-command_parts cs found args _ q

module _ (u : Unicode) (prog : Text) (deeper : Walker) (grow : WalkerGrows deeper)
    (finds : WalkerFinds u prog deeper) where
  pub beside_finds :
      (n : Node) (cs : Children) (found : Option Node) (args : List Node) (p : ShellParse)
      → Part unnamed n cs
      → Occurs u prog n
      → Finds prog (command_parts deeper cs found args p).2
  unfolding command_parts
  beside_finds n nil found args p q o = elim q [ ]
  beside_finds n (child unnamed true m cs) found args p part_here o =
      Finds-grow u prog (Grows-command_parts u deeper grow none cs found args _) (finds.visit m p o)
  beside_finds n (child f false m cs) found args p (part_there q) o =
      beside_finds n cs found args p q o
  beside_finds n (child name true m cs) found args p (part_there q) o =
      beside_finds n cs _ args p q o
  beside_finds n (child argument true m cs) found args p (part_there q) o =
      beside_finds n cs found _ p q o
  beside_finds n (child unnamed true m cs) found args p (part_there q) o =
      beside_finds n cs found args _ q o

  module _ (reparse : Reparse) (n : Node) (live : IsLive u prog n) where
    classify_shell_finds :
        (name' : Text) (args : List Node) (p : ShellParse)
        → Has n args
        → Finds prog (classify_shell u deeper reparse name' args p)
    unfolding classify_shell
    classify_shell_finds name' args p h = elim (Option-cases (find_c_script args)) [
      | inl e ↦
          rw (e, classify_shell)
            (classify_args_finds u prog deeper grow finds n name' none false args p live
              (SkipsLiteral-none args) h)
      | inr (found, e) ↦
          rw (e, classify_shell)
            (classify_args_finds u prog deeper grow finds n name' (some found.0) false args _ live
              (find_c_script_literal args found.0 found.1 e) h)
    ]

    pub classify_invocation_finds :
        (name' : Text) (args : List Node) (p : ShellParse)
        → Has n args
        → Finds prog (classify_invocation u deeper reparse name' args p)
    unfolding classify_invocation peel_wrapper
    classify_invocation_finds name' args p h = elim (Option-cases (wrapper_spec name')) [
      | inl e ↦
          rw (e, classify_invocation)
            (Finds-if u prog _ _ (text_eq name' (codes "eval"))
              (handle_eval_finds u prog deeper grow finds n reparse args p live h)
              (Finds-if u prog _ _ (is_shell name') (classify_shell_finds name' args p h) (
                classify_args_finds u prog deeper grow finds n name' none false args p live
                  (SkipsLiteral-none args) h)))
      | inr (w, e) ↦
          rw (e, classify_invocation)
            (peel_from_finds u prog deeper grow finds n live w false _ false args p h (λ t. cc))
    ]

    pub argument_finds :
        (inner : Option Node) (args : List Node) (p : ShellParse)
        → Has n args
        → Finds prog (command_with_name u deeper reparse inner args p)
    unfolding command_with_name named_command
    argument_finds none args p h = mine_args_finds u prog deeper grow finds n args p live.1 h
    argument_finds (some inner) args p h = elim (Option-cases (literal_text inner)) [
      | inl e ↦
          rw (e, command_with_name) (mine_args_finds u prog deeper grow finds n args _ live.1 h)
      | inr (text, e) ↦
          rw (e, command_with_name)
            (Finds-if u prog _ _ (is_empty (normalize_program u text))
              (mine_args_finds u prog deeper grow finds n args p live.1 h)
              (Finds-grow u prog (Grows-insert_program _ _) (classify_invocation_finds _ args p h)))
    ]
