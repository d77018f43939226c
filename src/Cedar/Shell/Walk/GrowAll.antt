-- ===== src/Cedar/Shell/Walk/GrowAll.antt =====
-- Every command only adds to the parse, and so does the whole walk of
-- crates/policy/cedar/src/shell_parse.rs.
use sondera_coding_agent_hoo.Prelude.{
  ℕ, zero, suc, true, false, Option, none, some, List, [], inl, inr, Option-cases,
}
use sondera_coding_agent_hoo.Prelude.Text.{Text, codes, text_eq, is_empty}
use sondera_coding_agent_hoo.Prelude.Unicode.{Unicode}
use sondera_coding_agent_hoo.Cedar.Shell.Tables.{wrapper_spec, is_shell}
use sondera_coding_agent_hoo.Cedar.Shell.Words.{normalize_program}
use sondera_coding_agent_hoo.Cedar.Shell.Node.{
  Kind, Node, Children, node, nil, child, name, argument, unnamed, literal_text, named,
}
use sondera_coding_agent_hoo.Cedar.Shell.Record.{ShellParse}
use sondera_coding_agent_hoo.Cedar.Shell.Record.Order.{Grows, Grows-refl, Grows-trans, Grows-if}
use sondera_coding_agent_hoo.Cedar.Shell.Record.Growth.{Grows-insert_program}
use sondera_coding_agent_hoo.Cedar.Shell.Walk.{
  Walker, Reparse, stopped, find_c_script, peel_wrapper, classify_shell, classify_invocation,
  command_parts, named_command, command_with_name, inner_name, handle_command, visit, walker,
}
use sondera_coding_agent_hoo.Cedar.Shell.Walk.Grow.{
  WalkerGrows, Grows-truncate, Grows-dynamic, Grows-reparse_script, Grows-mark, Grows-mine_args,
  Grows-handle_eval, Grows-classify_args, Grows-peel_from,
}

module _ (u : Unicode) (deeper : Walker) (grow : WalkerGrows deeper) where
  module _ (reparse : Reparse) where
    pub Grows-classify_shell :
        (prog : Text) (args : List Node) (p : ShellParse)
        → Grows p (classify_shell u deeper reparse prog args p)
    unfolding classify_shell
    Grows-classify_shell prog args p = elim (Option-cases (find_c_script args)) [
      | inl e ↦ rw (e, classify_shell) (Grows-classify_args u deeper grow prog none false args p)
      | inr (found, e) ↦
          rw (e, classify_shell)
            (Grows-trans (Grows-reparse_script reparse found.1 p)
              (Grows-classify_args u deeper grow prog (some found.0) false args _))
    ]

    pub Grows-classify_invocation :
        (prog : Text) (args : List Node) (p : ShellParse)
        → Grows p (classify_invocation u deeper reparse prog args p)
    unfolding classify_invocation peel_wrapper
    Grows-classify_invocation prog args p = elim (Option-cases (wrapper_spec prog)) [
      | inl e ↦
          rw (e, classify_invocation)
            (Grows-if (text_eq prog (codes "eval")) (Grows-handle_eval u deeper grow reparse args p)
              (Grows-if (is_shell prog) (Grows-classify_shell prog args p)
                (Grows-classify_args u deeper grow prog none false args p)))
      | inr (w, e) ↦
          rw (e, classify_invocation) (Grows-peel_from u deeper grow w false _ false args p)
    ]

    pub Grows-command_parts :
        (cs : Children) (name_node : Option Node) (args : List Node) (p : ShellParse)
        → Grows p (command_parts deeper cs name_node args p).2
    unfolding command_parts
    Grows-command_parts nil name_node args p = Grows-refl p
    Grows-command_parts (child f false n cs) name_node args p =
        Grows-command_parts cs name_node args p
    Grows-command_parts (child name true n cs) name_node args p =
        Grows-command_parts cs (some n) args p
    Grows-command_parts (child argument true n cs) name_node args p =
        Grows-command_parts cs name_node _ p
    Grows-command_parts (child unnamed true n cs) name_node args p =
        Grows-trans (grow.visit n p) (Grows-command_parts cs name_node args _)

    pub Grows-named_command :
        (text : Text) (args : List Node) (p : ShellParse)
        → Grows p (named_command u deeper reparse text args p)
    unfolding named_command
    Grows-named_command text args p =
        Grows-if (is_empty (normalize_program u text)) (Grows-mine_args u deeper grow args p)
          (Grows-trans (Grows-classify_invocation _ args p) (Grows-insert_program _ _))

    pub Grows-command_with_name :
        (inner : Option Node) (args : List Node) (p : ShellParse)
        → Grows p (command_with_name u deeper reparse inner args p)
    unfolding command_with_name
    Grows-command_with_name none args p = Grows-mine_args u deeper grow args p
    Grows-command_with_name (some inner) args p = elim (Option-cases (literal_text inner)) [
      | inl e ↦
          rw (e, command_with_name)
            (Grows-trans (Grows-dynamic p)
              (Grows-trans (grow.visit inner _) (Grows-mine_args u deeper grow args _)))
      | inr (text, e) ↦ rw (e, command_with_name) (Grows-named_command text args p)
    ]

    Grows-handle_command :
        (cs : Children) (p : ShellParse) → Grows p (handle_command u deeper reparse cs p)
    unfolding handle_command
    Grows-handle_command cs p = Grows-trans (Grows-command_parts cs none [] p) (
        Grows-command_with_name (inner_name (command_parts deeper cs none [] p).0)
          (command_parts deeper cs none [] p).1 _)

    Grows-visit : (n : Node) (p : ShellParse) → Grows p (visit u deeper reparse n p)
    unfolding visit
    Grows-visit (node Kind.command t cs) p = Grows-handle_command cs p
    Grows-visit (node k t cs) p =
        Grows-trans (Grows-mark k p) (Grows-mine_args u deeper grow (named cs) _)

stopped-WalkerGrows : WalkerGrows stopped
stopped-WalkerGrows = record {
  visit = λ n p. Grows-truncate p;
  classify = λ prog args p. Grows-truncate p;
}

pub walker-WalkerGrows :
    (u : Unicode) (reparse : Reparse) (room : ℕ) → WalkerGrows (walker u reparse room)
unfolding walker
walker-WalkerGrows u reparse zero = stopped-WalkerGrows
walker-WalkerGrows u reparse (suc room) =
    let grow = walker-WalkerGrows u reparse room in
    record {
      visit = Grows-visit u (walker u reparse room) grow reparse;
      classify = Grows-classify_invocation u (walker u reparse room) grow reparse;
    }
