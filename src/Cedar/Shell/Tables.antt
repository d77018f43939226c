-- ===== src/Cedar/Shell/Tables.antt =====
-- The constants and the wrapper table of crates/policy/cedar/src/shell_parse.rs.
use sondera_coding_agent_hoo.Prelude.{
  ℕ, ◌*◌, Bool, not, ◌&&◌, Option, none, some, List, [], ◌∷◌, map, ltb, length, if◌then◌else◌,
}
use sondera_coding_agent_hoo.Prelude.Text.{
  Text, codes, text_eq, contains_text, contains_char, starts_with,
}
use Prim.Native.String.{String}

abbrev pub max_command_bytes : ℕ
max_command_bytes = 256 * 1024

abbrev pub max_reparse_depth : ℕ
max_reparse_depth = 4

abbrev pub max_tree_depth : ℕ
max_tree_depth = 512

pub record Wrapper : Type 0 where
  pub name : Text
  pub value_flags : List Text

abbrev entry : String → List String → Wrapper
entry name flags = record { name = codes name; value_flags = map codes flags }

pub wrappers : List Wrapper
wrappers =
    entry "sudo" (
      "-u" ∷ "-g" ∷ "-p" ∷ "-C" ∷ "-D" ∷ "-h" ∷ "-R" ∷ "-T" ∷ "-U" ∷ "-r" ∷ "-t" ∷ "--user"
      ∷ "--group" ∷ "--prompt" ∷ "--close-from" ∷ "--chdir" ∷ "--host" ∷ "--role" ∷ "--type"
      ∷ "--login-class" ∷ [])
    ∷ entry "doas" ("-u" ∷ "-C" ∷ [])
    ∷ entry "xargs" (
        "-a" ∷ "-d" ∷ "-E" ∷ "-e" ∷ "-I" ∷ "-i" ∷ "-L" ∷ "-l" ∷ "-n" ∷ "-P" ∷ "-s" ∷ "--arg-file"
        ∷ "--delimiter" ∷ "--eof" ∷ "--replace" ∷ "--max-lines" ∷ "--max-args" ∷ "--max-procs"
        ∷ "--max-chars" ∷ "--process-slot-var" ∷ [])
    ∷ entry "timeout" ("-s" ∷ "-k" ∷ "--signal" ∷ "--kill-after" ∷ [])
    ∷ entry "nice" ("-n" ∷ "--adjustment" ∷ [])
    ∷ entry "env" ("-u" ∷ "-S" ∷ "-C" ∷ "--unset" ∷ "--chdir" ∷ "--split-string" ∷ "--argv0" ∷ [])
    ∷ entry "stdbuf" ("-i" ∷ "-o" ∷ "-e" ∷ "--input" ∷ "--output" ∷ "--error" ∷ [])
    ∷ entry "exec" ("-a" ∷ [])
    ∷ entry "nohup" []
    ∷ entry "setsid" []
    ∷ entry "command" []
    ∷ []

find_wrapper : List Wrapper → Text → Option Wrapper
find_wrapper [] name = none
find_wrapper (w ∷ ws) name = if text_eq w.name name then some w else find_wrapper ws name

unfoldable pub wrapper_spec : Text → Option Wrapper
unfolding wrappers find_wrapper
wrapper_spec name = find_wrapper wrappers name

pub shells : List Text
shells = map codes ("bash" ∷ "sh" ∷ "zsh" ∷ "dash" ∷ "ash" ∷ [])

unfoldable pub is_shell : Text → Bool
unfolding shells
is_shell prog = contains_text shells prog

unfoldable pub is_flag_token : Text → Bool
is_flag_token text = starts_with text (b'-' ∷ []) && ltb 1 (length text)

unfoldable pub wrapper_flag_consumes_value : Wrapper → Text → Bool
wrapper_flag_consumes_value w text =
    not (contains_char text b'=') && contains_text w.value_flags text
