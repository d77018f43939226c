-- ===== src/Cedar/Shell/Walk/Complete.antt =====
-- Completeness of the walk: where the result is `ok`, no program that occurs is missing.
use sondera_coding_agent_hoo.Prelude.{
  ℕ, zero, suc, ◌≡◌, ◌≢◌, refl, sym, ◌∙◌, true, false, Option, none, some, List, [], ◌∷◌, Has, ltb,
  length,
}
use sondera_coding_agent_hoo.Prelude.Text.{Text, is_empty, as_bytes}
use sondera_coding_agent_hoo.Prelude.Sets.{Has-set_insert_self}
use sondera_coding_agent_hoo.Prelude.Unicode.{Unicode}
use sondera_coding_agent_hoo.Cedar.Shell.Tables.{max_command_bytes, max_tree_depth}
use sondera_coding_agent_hoo.Cedar.Shell.Words.{normalize_program}
use sondera_coding_agent_hoo.Cedar.Shell.Node.{
  Kind, Node, Children, Tree, node, literal_text, named, first_named,
}
use sondera_coding_agent_hoo.Cedar.Shell.Record.{ShellParse, insert_program}
use sondera_coding_agent_hoo.Cedar.Shell.Walk.{
  Walker, Reparse, mine_args, command_parts, named_command, command_with_name, inner_name, mark,
  visit, walker, parse_once, parse_with_depth, analyze_shell_command,
}
use sondera_coding_agent_hoo.Cedar.Shell.Walk.Grow.{WalkerGrows, Grows-mine_args}
use sondera_coding_agent_hoo.Cedar.Shell.Walk.GrowAll.{walker-WalkerGrows, Grows-command_with_name}
use sondera_coding_agent_hoo.Cedar.Shell.Walk.Occurs.{
  last_name, Occurs, here, inside, beside, in_name, in_argument,
}
use sondera_coding_agent_hoo.Cedar.Shell.Walk.Finds.{
  Finds, Finds-grow, Finds-if, WalkerFinds, stopped-WalkerFinds, mine_args_finds,
}
use sondera_coding_agent_hoo.Cedar.Shell.Walk.Commands.{
  name-command_parts, argument-command_parts, beside_finds, classify_invocation_finds,
  argument_finds,
}

module _ (u : Unicode) (prog : Text) where
  Finds-insert_program :
      (text : Text) (p : ShellParse) → text ≡ prog → Finds prog (insert_program text p)
  unfolding insert_program
  Finds-insert_program text p e = record {
    found = λ ok. rw e (Has-set_insert_self prog p.programs);
  }

  is_empty_of : (s : Text) → s ≢ [] → is_empty s ≡ false
  unfolding is_empty
  is_empty_of [] h = absurd (h refl)
  is_empty_of (c ∷ s) h = refl

  name_finds :
      (deeper : Walker) (reparse : Reparse) (i : Node) (text : Text) (args : List Node)
      (p : ShellParse)
      → literal_text i ≡ some text
      → normalize_program u text ≡ prog
      → prog ≢ []
      → Finds prog (command_with_name u deeper reparse (some i) args p)
  unfolding command_with_name named_command
  name_finds deeper reparse i text args p e f h =
      rw (e, command_with_name)
        (rw (is_empty_of (normalize_program u text) (λ g. h (sym f ∙ g)))
          (Finds-insert_program _ _ f))

  module _ (deeper : Walker) (grow : WalkerGrows deeper) (finds : WalkerFinds u prog deeper)
      (reparse : Reparse) where
    dynamic_name_finds :
        (i : Node) (args : List Node) (p : ShellParse)
        → literal_text i ≡ none
        → Occurs u prog i
        → Finds prog (command_with_name u deeper reparse (some i) args p)
    unfolding command_with_name
    dynamic_name_finds i args p e o =
        rw (e, command_with_name)
          (Finds-grow u prog (Grows-mine_args u deeper grow args _) (finds.visit i _ o))

    inner_eq :
        {m i : Node} (cs : Children) (p : ShellParse)
        → last_name cs none ≡ some m
        → first_named m ≡ some i
        → inner_name (command_parts deeper cs none [] p).0 ≡ some i
    inner_eq cs p e f = rw (name-command_parts deeper cs none [] p) (rw e f)

    visit_other :
        (k : Kind) (t : Option Text) (cs : Children) (p : ShellParse)
        → k ≢ Kind.command
        → visit u deeper reparse (node k t cs) p ≡ mine_args deeper (named cs) (mark k p)
    unfolding visit
    visit_other Kind.command t cs p h = absurd (h refl)
    visit_other _ t cs p h = refl

    visit_command :
        (t : Option Text) (cs : Children) (p : ShellParse)
        → visit u deeper reparse (node Kind.command t cs) p
          ≡ command_with_name u deeper reparse
              (inner_name (command_parts deeper cs none [] p).0)
              (command_parts deeper cs none [] p).1
              (command_parts deeper cs none [] p).2
    unfolding visit
    visit_command t cs p = refl

    visit_finds :
        {n : Node} (p : ShellParse) → Occurs u prog n → Finds prog (visit u deeper reparse n p)
    visit_finds p (here {t} {cs} m i text e f g h k) =
        rw (visit_command t cs p)
          (rw (inner_eq cs p e f) (name_finds deeper reparse i text _ _ g h k))
    visit_finds p (inside {k} {t} {cs} n ne h o) =
        rw (visit_other k t cs p ne) (mine_args_finds u prog deeper grow finds n _ _ o h)
    visit_finds p (beside {t} {cs} n q o) = rw (visit_command t cs p) (
        Finds-grow u prog (Grows-command_with_name u deeper grow reparse _ _ _)
          (beside_finds u prog deeper grow finds n cs none [] p q o))
    visit_finds p (in_name {t} {cs} m i e f g o) =
        rw (visit_command t cs p) (rw (inner_eq cs p e f) (dynamic_name_finds i _ _ g o))
    visit_finds p (in_argument {t} {cs} n q e o) = rw (visit_command t cs p) (
        argument_finds u prog deeper grow finds reparse n (e, o) _ _ _
          (argument-command_parts deeper n cs none [] p q))

  walker-WalkerFinds : (reparse : Reparse) (room : ℕ) → WalkerFinds u prog (walker u reparse room)
  unfolding walker
  walker-WalkerFinds reparse zero = stopped-WalkerFinds u prog
  walker-WalkerFinds reparse (suc room) =
      let deeper = walker u reparse room in
      let grow = walker-WalkerGrows u reparse room in
      let finds = walker-WalkerFinds reparse room in
      record {
        visit = λ n p o. visit_finds deeper grow finds reparse p o;
        classify = λ n name args p live h.
            classify_invocation_finds u prog deeper grow finds reparse n live name args p h;
      }

  pub parse_once_finds :
      (parse : Text → Option Tree) (reparse : Reparse) (command : Text) (tree : Tree)
      → parse command ≡ some tree
      → Occurs u prog tree.root
      → Finds prog (parse_once u parse reparse command)
  unfolding parse_once
  parse_once_finds parse reparse command tree e o =
      Finds-if u prog _ _ (ltb max_command_bytes (length (as_bytes command)))
        (record { found = λ ok. cc })
        (rw e ((walker-WalkerFinds reparse (suc max_tree_depth)).visit tree.root _ o))

-- A guardrail on program names sees every program: where the analysis is `ok`, `programs` holds
-- each program that is the literal name of a command in the syntax tree, also inside constructs,
-- redirections, assignments, dynamic names and the dynamic arguments of any program, wrapper, shell
-- or `eval`.
pub analyze_shell_command_complete :
    (u : Unicode) (parse : Text → Option Tree) (command : Text) (tree : Tree) (prog : Text)
    → parse command ≡ some tree
    → Occurs u prog tree.root
    → (analyze_shell_command u parse command).ok ≡ true
    → Has prog (analyze_shell_command u parse command).programs
unfolding analyze_shell_command
analyze_shell_command_complete u parse command tree prog e o =
    (parse_once_finds u prog parse (some (parse_with_depth u parse 3)) command tree e o).found
