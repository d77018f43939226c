-- ===== src/Types/Redact.antt =====
-- Redaction of file bodies: crates/types/src/trajectory/redact.rs. SHA-256 is a parameter: the hex
-- digest of a byte string.
pub mod Laws
use sondera_coding_agent_hoo.Prelude.{
  ℕ, zero, suc, ◌/◌, ◌%◌, ◌+◌, Bool, true, false, Option, none, some, List, [], ◌∷◌, ◌++◌, length,
  ltb, if◌then◌else◌,
}
use sondera_coding_agent_hoo.Prelude.Text.{Text, codes, as_bytes}
use sondera_coding_agent_hoo.Types.Action.{Action, FileOperation, file_operation}
use sondera_coding_agent_hoo.Types.Observation.{
  Observation, FileOperationResult, file_operation_result,
}
use sondera_coding_agent_hoo.Types.Event.{Event, TrajectoryEvent, action, observation}

abbrev pub fingerprint_hex : ℕ
fingerprint_hex = 16

-- `digest.get(..FINGERPRINT_HEX)`, or the whole digest where it is shorter; a digest is ASCII.
unfoldable pub fingerprint : ℕ → Text → Text
fingerprint zero s = []
fingerprint (suc n) [] = []
fingerprint (suc n) (c ∷ s) = c ∷ fingerprint n s

-- A number in decimal; `fuel` bounds the digits.
decimal_from : ℕ → ℕ → Text → Text
decimal_from zero n rest = rest
decimal_from (suc fuel) n rest =
    let digits = (b'0' + n % 10) ∷ rest in
    elim (ltb n 10) [ true ↦ digits | false ↦ decimal_from fuel (n / 10) digits ]

-- `n.to_string()`; a number has at most as many digits as its successor counts.
unfoldable pub decimal : ℕ → Text
unfolding decimal_from
decimal n = decimal_from (suc n) n []

module _ (sha256 : List ℕ → Text) where
  unfoldable pub redaction_marker : Text → Text
  unfolding fingerprint decimal
  redaction_marker content =
      codes "[redacted: "
      ++ (decimal (length (as_bytes content))
          ++ (codes " bytes, sha256:"
              ++ (fingerprint fingerprint_hex (sha256 (as_bytes content)) ++ codes "]")))

  unfoldable pub redact : Option Text → Option Text
  redact none = none
  redact (some body) = some (redaction_marker body)

  -- `TrajectoryEvent::redact_file_content`.
  unfoldable pub redact_payload : TrajectoryEvent → TrajectoryEvent
  unfolding redact
  redact_payload (action (file_operation op)) = action (
      file_operation
        (record op { content = redact op.content; old_content = redact op.old_content }))
  redact_payload (observation (file_operation_result result)) =
      observation (file_operation_result (record result { content = redact result.content }))
  redact_payload unchanged = unchanged

  -- `Event::redact_file_content`.
  unfoldable pub redact_file_content : Event → Event
  unfolding redact_payload
  redact_file_content e = record e { event = redact_payload e.event }
