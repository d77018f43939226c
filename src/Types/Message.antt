-- ===== src/Types/Message.antt =====
-- What a verdict tells the agent: `format_policy_context` and `deny_message` of
-- crates/types/src/trajectory/control.rs.
use sondera_coding_agent_hoo.Prelude.{Option, none, some, List, [], ◌∷◌, ◌++◌}
use sondera_coding_agent_hoo.Prelude.Text.{Text, codes}
use sondera_coding_agent_hoo.Prelude.Sets.{set_insert}
use sondera_coding_agent_hoo.Types.Json.{HashMap, get}
use sondera_coding_agent_hoo.Types.Policy.{PolicyMetadata}
use sondera_coding_agent_hoo.Types.Control.{Adjudicated}

-- `lines.join("\n")`.
unfoldable pub join_lines : List Text → Text
join_lines [] = []
join_lines (l ∷ ls) = let rest = join_lines ls in elim ls [ [] ↦ l | k ∷ ks ↦ l ++ 10 ∷ rest ]

-- The sorted keys of a map.
unfoldable pub sorted_keys : HashMap Text → List Text
sorted_keys [] = []
sorted_keys ((k, v) ∷ m) = set_insert k (sorted_keys m)

unfoldable pub key_lines : HashMap Text → List Text → List Text
key_lines m [] = []
key_lines m (k ∷ ks) =
    let rest = key_lines m ks in
    elim (get m k) [ none ↦ rest | some v ↦ (codes "  " ++ k ++ codes ": " ++ v) ∷ rest ]

unfoldable pub headline : Option Text → Option Text → List Text
headline (some id) (some d) = (codes "[Policy: " ++ id ++ codes "] " ++ d) ∷ []
headline (some id) none = (codes "[Policy: " ++ id ++ codes "]") ∷ []
headline none (some d) = d ∷ []
headline none none = []

unfoldable pub metadata_text : PolicyMetadata → Text
unfolding join_lines sorted_keys key_lines headline
metadata_text a =
    join_lines (headline a.policy_id a.description ++ key_lines a.metadata (sorted_keys a.metadata))

unfoldable pub context_parts : List PolicyMetadata → List Text
unfolding metadata_text
context_parts [] = []
context_parts (a ∷ as') =
    let rest = context_parts as' in elim (metadata_text a) [ [] ↦ rest | c ∷ s ↦ (c ∷ s) ∷ rest ]

unfoldable pub format_policy_context : Adjudicated → Option Text
unfolding context_parts
format_policy_context a = elim (context_parts a.metadata) [
  | [] ↦ none
  | p ∷ ps ↦ some (join_lines (p ∷ ps))
]

unfoldable pub reason_or : Text → Option Text → Text
reason_or d none = d
reason_or d (some r) = r

-- `deny_message`.
unfoldable pub deny_message : Text → Adjudicated → Text
unfolding format_policy_context reason_or
deny_message default_reason a =
    let reason = reason_or default_reason a.reason in
    elim (format_policy_context a) [ none ↦ reason | some c ↦ reason ++ 10 ∷ 10 ∷ c ]
