-- ===== src/Types/Policy.antt =====
-- Verdicts, modes and policy metadata: crates/types/src/policy.rs.
use sondera_coding_agent_hoo.Prelude.{ℕ, Bool, true, false, Option, none, some, [], if◌then◌else◌}
use sondera_coding_agent_hoo.Prelude.Text.{Text, codes, text_eq}
use sondera_coding_agent_hoo.Types.Json.{HashMap, insert}

pub data Decision : Type 0 where
  allow deny escalate : Decision

pub data Mode : Type 0 where
  monitor govern steer : Mode

-- `Decision::as_label`.
unfoldable pub decision_as_label : Decision → Text
decision_as_label allow = codes "allow"
decision_as_label deny = codes "deny"
decision_as_label escalate = codes "escalate"

-- The rank by which modes are ordered.
unfoldable pub restrictiveness : Mode → ℕ
restrictiveness monitor = 0
restrictiveness steer = 1
restrictiveness govern = 2

-- `Mode::as_label`, which `Display` writes too.
unfoldable pub mode_as_label : Mode → Text
mode_as_label monitor = codes "monitor"
mode_as_label govern = codes "govern"
mode_as_label steer = codes "steer"

pub record ParseEnumError : Type 0 where
  pub kind : Text
  pub value : Text
  pub expected : Text

pub data Parsed (A : Type 0) : Type 0 where
  ok : A → Parsed A
  err : ParseEnumError → Parsed A

-- `Mode::from_str`.
unfoldable pub mode_from_str : Text → Parsed Mode
mode_from_str s =
    if text_eq s (codes "monitor")
    then ok monitor
    else if text_eq s (codes "govern")
    then ok govern
    else if text_eq s (codes "steer")
    then ok steer
    else err (record { kind = codes "mode"; value = s; expected = codes "monitor, govern, steer" })

pub record PolicyMetadata : Type 0 where
  pub policy_id : Option Text
  pub description : Option Text
  pub escalate : Bool
  pub escalate_arg : Option Text
  pub metadata : HashMap Text

-- `PolicyMetadata::new()` and the builders.
abbrev pub new_metadata : PolicyMetadata
new_metadata = record {
  policy_id = none;
  description = none;
  escalate = false;
  escalate_arg = none;
  metadata = [];
}

unfoldable pub with_id : Text → PolicyMetadata → PolicyMetadata
with_id id m = record m { policy_id = some id }

unfoldable pub with_description : Text → PolicyMetadata → PolicyMetadata
with_description d m = record m { description = some d }

unfoldable pub with_escalate : Option Text → PolicyMetadata → PolicyMetadata
with_escalate arg m = record m { escalate = true; escalate_arg = arg }

unfoldable pub with_key : Text → Text → PolicyMetadata → PolicyMetadata
with_key k v m = record m { metadata = insert m.metadata k v }
