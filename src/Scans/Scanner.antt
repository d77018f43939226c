-- ===== src/Scans/Scanner.antt =====
-- What the trajectory scanner does around a model call: crates/trajectory/src/scanner.rs, with the
-- errors of crates/trajectory/src/error.rs.
pub mod Laws
use sondera_coding_agent_hoo.Prelude.{Bool, true, false, ◌&&◌, List, [], ◌∷◌}
use sondera_coding_agent_hoo.Prelude.Text.{Text, codes, text_eq}
use sondera_coding_agent_hoo.Types.Control.{Control, is_terminal}
use sondera_coding_agent_hoo.Types.Observation.{Observation, PromptRole}
use sondera_coding_agent_hoo.Types.Scan.{EventScanResult, TranscriptDigest, TranscriptScanResult}
use sondera_coding_agent_hoo.Types.Event.{Event, TrajectoryEvent}

pub data ScannerError : Type 0 where
  client_build : Text → ScannerError
  timeout : ScannerError
  extraction : Text → ScannerError
  no_events : ScannerError
  trajectory_not_found : Text → ScannerError
  store : Text → ScannerError

-- `ScannerError::kind`.
unfoldable pub kind : ScannerError → Text
kind (client_build e) = codes "client_build"
kind timeout = codes "timeout"
kind (extraction m) = codes "extraction"
kind no_events = codes "no_events"
kind (trajectory_not_found id) = codes "trajectory_not_found"
kind (store e) = codes "store"

pub data Answer (A : Type 0) : Type 0 where
  answered : A → Answer A
  refused : ScannerError → Answer A

-- The model, with the prompts that the rubric renders for it: what `extract` returns.
pub record Model : Type 0 where
  pub extract_event : Event → Answer EventScanResult
  pub extract_digest : Text → List Event → Answer TranscriptDigest
  pub extract_scan : Text → List Event → Answer TranscriptScanResult

-- `should_scan_transcript_for_event`.
unfoldable pub should_scan_transcript : Event → Bool
should_scan_transcript e = elim e.event [ TrajectoryEvent.control c ↦ is_terminal c | _ ↦ false ]

is_assistant : PromptRole → Bool
is_assistant PromptRole.assistant = true
is_assistant _ = false

assistant_prompt : TrajectoryEvent → Bool
unfolding is_assistant
assistant_prompt (TrajectoryEvent.observation (Observation.prompt_shown p)) = is_assistant p.role
assistant_prompt _ = false

-- `should_digest_interim_transcript_for_event`.
unfoldable pub should_digest_interim : Event → Bool
unfolding assistant_prompt
should_digest_interim e = text_eq e.agent.platform (codes "codex") && assistant_prompt e.event

unfoldable pub scanned_payload : TrajectoryEvent → Bool
scanned_payload (TrajectoryEvent.control (Control.scanned s)) = true
scanned_payload _ = false

unfoldable pub is_scanner_output : Event → Bool
unfolding scanned_payload
is_scanner_output e = scanned_payload e.event

module _ (model : Model) where
  unfoldable pub scan_event : Event → Answer EventScanResult
  scan_event e = model.extract_event e

  -- The id is the caller's, whatever the model wrote.
  unfoldable pub render_digest : Text → List Event → Answer TranscriptDigest
  render_digest id events = elim (model.extract_digest id events) [
    | answered d ↦ answered (record d { trajectory_id = id })
    | refused e ↦ refused e
  ]

  unfoldable pub digest_transcript : Text → List Event → Answer TranscriptDigest
  unfolding render_digest
  digest_transcript id [] = refused no_events
  digest_transcript id (e ∷ es) = render_digest id (e ∷ es)

  unfoldable pub digest_interim_transcript : Text → List Event → Answer TranscriptDigest
  unfolding render_digest
  digest_interim_transcript id [] = refused no_events
  digest_interim_transcript id (e ∷ es) = elim (render_digest id (e ∷ es)) [
    | answered d ↦ answered (record d { interim = true })
    | refused x ↦ refused x
  ]

  unfoldable pub scan_transcript : Text → List Event → Answer TranscriptScanResult
  scan_transcript id [] = refused no_events
  scan_transcript id (e ∷ es) = model.extract_scan id (e ∷ es)
