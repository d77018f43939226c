-- ===== src/Cedar/Shell/Walk/Sound.antt =====
-- What a finished analysis of crates/policy/cedar/src/shell_parse.rs guarantees where it is `ok`.
use sondera_coding_agent_hoo.Prelude.{
  suc, ◌≡◌, Bool, true, false, not, Option, none, some, ltb, length, ◌≤◌, arith, Bool-cases, inl,
  inr,
}
use sondera_coding_agent_hoo.Prelude.Text.{Text, as_bytes}
use sondera_coding_agent_hoo.Prelude.Unicode.{Unicode}
use sondera_coding_agent_hoo.Cedar.Shell.Tables.{max_command_bytes, max_tree_depth}
use sondera_coding_agent_hoo.Cedar.Shell.Node.{Tree}
use sondera_coding_agent_hoo.Cedar.Shell.Record.{empty}
use sondera_coding_agent_hoo.Cedar.Shell.Walk.{
  Reparse, parse_once, parse_tree, parse_with_depth, analyze_shell_command,
}
use sondera_coding_agent_hoo.Cedar.Shell.Walk.GrowAll.{walker-WalkerGrows}

-- The command was parsed, without a syntax error.
abbrev pub IsParsed : Option Tree → Type 0
IsParsed none = ⊥
IsParsed (some tree) = tree.has_error ≡ false

module _ (u : Unicode) (parse : Text → Option Tree) where
  negated : (b : Bool) → not b ≡ true → b ≡ false
  negated b e = ground arith

  parse_tree_ok :
      (reparse : Reparse) (found : Option Tree)
      → (parse_tree u parse reparse found).ok ≡ true
      → IsParsed found
  unfolding parse_tree
  parse_tree_ok reparse none h = cc
  parse_tree_ok reparse (some tree) h =
      let grown =
        (walker-WalkerGrows u reparse (suc max_tree_depth)).visit tree.root
          (record empty { ok = not tree.has_error }) in
      negated tree.has_error (grown.holds.ok h)

  parse_once_ok :
      (reparse : Reparse) (command : Text)
      → (parse_once u parse reparse command).ok ≡ true
      → (length (as_bytes command) ≤ max_command_bytes) × IsParsed (parse command)
  unfolding parse_once
  parse_once_ok reparse command =
      elim (Bool-cases (ltb max_command_bytes (length (as_bytes command)))) [
        | inl e ↦ rw (e, parse_once) (λ h. cc)
        | inr e ↦ rw (e, parse_once) (λ h. (ground arith, parse_tree_ok reparse (parse command) h))
      ]

-- The analysis fails closed: where it is `ok`, the command has at most 256 KiB of UTF-8, the
-- parser returned a tree, and that tree has no syntax error.
pub analyze_shell_command_ok :
    (u : Unicode) (parse : Text → Option Tree) (command : Text)
    → (analyze_shell_command u parse command).ok ≡ true
    → (length (as_bytes command) ≤ max_command_bytes) × IsParsed (parse command)
unfolding analyze_shell_command
analyze_shell_command_ok u parse command h =
    parse_once_ok u parse (some (parse_with_depth u parse 3)) command h
