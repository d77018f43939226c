-- ===== src/Cedar/Shell/Walk/Occurs.antt =====
-- Where a program stands in the syntax tree of a command: a description that does not mention the
-- walk of crates/policy/cedar/src/shell_parse.rs.
use sondera_coding_agent_hoo.Prelude.{◌≡◌, ◌≢◌, Bool, true, Option, none, some, [], Has}
use sondera_coding_agent_hoo.Prelude.Text.{Text}
use sondera_coding_agent_hoo.Prelude.Unicode.{Unicode}
use sondera_coding_agent_hoo.Cedar.Shell.Words.{normalize_program}
use sondera_coding_agent_hoo.Cedar.Shell.Node.{
  Kind, Field, Node, Children, node, nil, child, name, argument, unnamed, named, first_named,
  literal_text,
}

-- A named child with this field.
pub data Part (f : Field) (n : Node) : Children → Type 0 where
  part_here : {cs : Children} → Part f n (child f true n cs)
  part_there :
      {g : Field} {b : Bool} {m : Node} {cs : Children} → Part f n cs → Part f n (child g b m cs)

-- The last named child with the field `name`, or the one given.
abbrev pub last_name : Children → Option Node → Option Node
last_name nil found = found
last_name (child name true n cs) found = last_name cs (some n)
last_name (child f b n cs) found = last_name cs found

-- `prog` is run by a command of the tree: as its literal name, or by a command that stands inside
-- a construct, a redirection or assignment, a dynamic name or a dynamic argument.
pub data Occurs (u : Unicode) (prog : Text) : Node → Type 0 where
  here :
      {t : Option Text} {cs : Children} (m i : Node) (text : Text)
      → last_name cs none ≡ some m
      → first_named m ≡ some i
      → literal_text i ≡ some text
      → normalize_program u text ≡ prog
      → prog ≢ []
      → Occurs u prog (node Kind.command t cs)
  inside :
      {k : Kind} {t : Option Text} {cs : Children} (n : Node)
      → k ≢ Kind.command
      → Has n (named cs)
      → Occurs u prog n
      → Occurs u prog (node k t cs)
  beside :
      {t : Option Text} {cs : Children} (n : Node)
      → Part unnamed n cs
      → Occurs u prog n
      → Occurs u prog (node Kind.command t cs)
  in_name :
      {t : Option Text} {cs : Children} (m i : Node)
      → last_name cs none ≡ some m
      → first_named m ≡ some i
      → literal_text i ≡ none
      → Occurs u prog i
      → Occurs u prog (node Kind.command t cs)
  in_argument :
      {t : Option Text} {cs : Children} (n : Node)
      → Part argument n cs
      → literal_text n ≡ none
      → Occurs u prog n
      → Occurs u prog (node Kind.command t cs)
