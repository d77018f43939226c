-- ===== src/Types/Scan.antt =====
-- Scan results: crates/types/src/trajectory/scan.rs. An `f64` is kept by its bit pattern, since
-- nothing computes with it.
use sondera_coding_agent_hoo.Prelude.{ℕ, Bool, Option, none, some, List}
use sondera_coding_agent_hoo.Prelude.Text.{Text}

pub data SignalFocus : Type 0 where
  environment agent governance : SignalFocus

pub data SignalCategory : Type 0 where
  input_issues infrastructure_failure task_design static_knowledge : SignalCategory
  low_level_incoherence high_level_incoherence self_correction refusal_behaviour : SignalCategory
  tool_misuse evaluation_awareness policy_violation privilege_escalation : SignalCategory
  data_exfiltration destructive_operation credential_exposure : SignalCategory

pub data SignalSeverity : Type 0 where
  info low medium high critical : SignalSeverity

pub record Signal : Type 0 where
  pub focus : SignalFocus
  pub category : SignalCategory
  pub severity : SignalSeverity
  pub description : Text
  pub evidence_indices : List ℕ

pub data MessageType : Type 0 where
  tool_call tool_result user_input reasoning lifecycle adjudication state_capture : MessageType

pub data AgentIntent : Type 0 where
  investigate plan implement verify debug communicate manage_lifecycle enforce : AgentIntent

pub record EventScanResult : Type 0 where
  pub explanation : Text
  pub message_type : MessageType
  pub intent : AgentIntent
  pub description : Text
  pub key_entities : List Text
  pub is_side_effecting : Bool
  pub signals : List Signal
  pub confidence : ℕ
  pub embedding : Option (List ℕ)

pub record TranscriptPhase : Type 0 where
  pub name : Text
  pub description : Text
  pub event_indices : List ℕ

pub record TranscriptDigest : Type 0 where
  pub trajectory_id : Text
  pub title : Text
  pub summary : Text
  pub interim : Bool
  pub phases : List TranscriptPhase
  pub files_modified : List Text
  pub tools_used : List Text
  pub total_events : ℕ
  pub side_effecting_count : ℕ

pub data TranscriptOutcome : Type 0 where
  success partial failure interrupted in_progress : TranscriptOutcome

pub record TranscriptScanResult : Type 0 where
  pub explanation : Text
  pub outcome : TranscriptOutcome
  pub outcome_description : Text
  pub aggregate_severity : SignalSeverity
  pub signals : List Signal
  pub adjudication_summary : Text
  pub behavioral_notes : List Text
  pub confidence : ℕ

-- A transcript scan with the event that triggered it.
pub record TranscriptScan : Type 0 where
  pub source_event_id : Text
  pub result : TranscriptScanResult

pub data Scanned : Type 0 where
  message : (source_event_id : Text) (result : EventScanResult) → Scanned
  transcript_digest : (source_event_id : Text) (result : TranscriptDigest) → Scanned
  transcript_scan : (source_event_id : Text) (result : TranscriptScanResult) → Scanned

unfoldable pub transcript_digest_result : Scanned → Option TranscriptDigest
transcript_digest_result (transcript_digest id result) = some result
transcript_digest_result _ = none

unfoldable pub event_scan_result : Scanned → Option EventScanResult
event_scan_result (message id result) = some result
event_scan_result _ = none

unfoldable pub transcript_scan_result : Scanned → Option TranscriptScanResult
transcript_scan_result (transcript_scan id result) = some result
transcript_scan_result _ = none

unfoldable pub source_event_id : Scanned → Text
source_event_id (message id result) = id
source_event_id (transcript_digest id result) = id
source_event_id (transcript_scan id result) = id
