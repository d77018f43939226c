-- ===== src/Scans/Task.antt =====
-- One background scan, cut at its accesses of the store: crates/harness/src/scan.rs.
use sondera_coding_agent_hoo.Prelude.{Bool, Option, none, some, List, [], ◌∷◌, ◌++◌, if◌then◌else◌}
use sondera_coding_agent_hoo.Prelude.Text.{Text, codes}
use sondera_coding_agent_hoo.Types.Json.{HashMap, insert}
use sondera_coding_agent_hoo.Types.Control.{Control}
use sondera_coding_agent_hoo.Types.Scan.{
  Scanned, EventScanResult, TranscriptDigest, TranscriptScanResult, message, transcript_digest,
  transcript_scan,
}
use sondera_coding_agent_hoo.Types.Event.{
  Event, Fresh, ActorType, TrajectoryEvent, new_event, with_actor, with_causality, caused_by,
  default_causality,
}
use sondera_coding_agent_hoo.Scans.Scanner.{
  Answer, Model, answered, refused, scan_event, digest_transcript, digest_interim_transcript,
  scan_transcript,
}

pub record ScanSource : Type 0 where
  pub event_id : Text
  pub trajectory_id : Text
  pub agent_id : Text

-- `ScanSource::of`.
unfoldable pub source_of : Event → ScanSource
source_of e = record {
  event_id = e.event_id;
  trajectory_id = e.trajectory_id;
  agent_id = e.agent.id;
}

-- The ledger, and the tables of scans under the id of the event that triggered them: an insertion
-- replaces a row of the same id.
pub record ScanStore : Type 0 where
  pub ledger : List Event
  pub event_scans : HashMap (ScanSource × EventScanResult)
  pub digests : HashMap (ScanSource × TranscriptDigest)
  pub scans : HashMap (ScanSource × TranscriptScanResult)

-- What a step meets outside: the model, whether the store refuses the access, what it reads of a
-- run, and the id and time of a new record.
pub record Outside : Type 0 where
  pub model : Model
  pub refuses : Bool
  pub trajectory_events : Text → List Event → List Event
  pub fresh : Fresh

-- Where a spawned scan stands. It holds its permit in each of these places.
pub data Task : Type 0 where
  scan_one : Event → Task
  load_final load_interim : Event → Task
  digest_final scan_final digest_interim : Event → List Event → Task
  emit : Event → Scanned → Option (List Event) → Task

-- The record that `emit_scanned` appends.
unfoldable pub scanned_record : Fresh → Event → Scanned → Event
unfolding new_event with_actor with_causality caused_by default_causality
scanned_record fresh e s =
    with_causality (caused_by e.event_id (default_causality fresh.correlation_id)) (
      with_actor (record { id = codes "trajectory-scanner"; actor_type = ActorType.system })
        (new_event fresh e.agent e.trajectory_id (TrajectoryEvent.control (Control.scanned s))))

-- What is left of a scan and the store that a step leaves; `none` is the end of the scan.
abbrev pub After : Type 0
After = Option Task × ScanStore

unfoldable pub loaded : (List Event → Task) → Option (List Event) → Option Task
loaded next none = none
loaded next (some events) = some (next events)

-- The behavioural scan that follows a digest of a finished run.
unfoldable pub continued : Event → Option (List Event) → Option Task
continued e none = none
continued e (some events) = some (scan_final e events)

module _ (o : Outside) where
  -- `persisted`: the record is appended only where the row was stored; `next` is what a failed
  -- insertion goes on with.
  unfoldable pub stored : ScanStore → ScanStore → Task → Option Task → After
  stored before after emitted next = if o.refuses then (next, before) else (some emitted, after)

  -- `record_event_scan`, `record_digest` and `record_transcript_scan` up to the record.
  unfoldable pub record_event_scan : Event → EventScanResult → ScanStore → After
  unfolding stored source_of
  record_event_scan e r s =
      stored s (record s { event_scans = insert s.event_scans e.event_id (source_of e, r) })
        (emit e (message e.event_id r) none) none

  unfoldable pub record_digest :
      Event → TranscriptDigest → Option (List Event) → Option Task → ScanStore → After
  unfolding stored source_of
  record_digest e d rest next s =
      stored s (record s { digests = insert s.digests e.event_id (source_of e, d) })
        (emit e (transcript_digest e.event_id d) rest) next

  unfoldable pub record_transcript_scan : Event → TranscriptScanResult → ScanStore → After
  unfolding stored source_of
  record_transcript_scan e r s =
      stored s (record s { scans = insert s.scans e.event_id (source_of e, r) })
        (emit e (transcript_scan e.event_id r) none) none

  -- `transcript`: nothing to scan where the read fails or is empty.
  unfoldable pub transcript : Event → ScanStore → Option (List Event)
  transcript e s = if o.refuses then none else elim (o.trajectory_events e.trajectory_id s.ledger) [
    | [] ↦ none
    | x ∷ xs ↦ some (x ∷ xs)
  ]

  -- The two arms of each `match` on the model's answer.
  unfoldable pub event_answered : Event → Answer EventScanResult → ScanStore → After
  unfolding record_event_scan
  event_answered e (answered r) s = record_event_scan e r s
  event_answered e (refused x) s = (none, s)

  unfoldable pub final_answered : Event → List Event → Answer TranscriptDigest → ScanStore → After
  unfolding record_digest
  final_answered e events (answered d) s =
      record_digest e d (some events) (some (scan_final e events)) s
  final_answered e events (refused x) s = (some (scan_final e events), s)

  unfoldable pub scan_answered : Event → Answer TranscriptScanResult → ScanStore → After
  unfolding record_transcript_scan
  scan_answered e (answered r) s = record_transcript_scan e r s
  scan_answered e (refused x) s = (none, s)

  unfoldable pub interim_answered : Event → Answer TranscriptDigest → ScanStore → After
  unfolding record_digest
  interim_answered e (answered d) s = record_digest e d none none s
  interim_answered e (refused x) s = (none, s)

  -- `emit_scanned`: a refused append is only logged.
  unfoldable pub emit_scanned : Event → Scanned → ScanStore → ScanStore
  unfolding scanned_record
  emit_scanned e x s =
      if o.refuses then s else record s { ledger = s.ledger ++ scanned_record o.fresh e x ∷ [] }

  -- One step of a scan: a model call with the insertion of its result, a read, or an append.
  unfoldable pub advance : Task → ScanStore → After
  unfolding event_answered final_answered scan_answered interim_answered transcript loaded continued
      emit_scanned scan_event digest_transcript digest_interim_transcript scan_transcript
  advance (scan_one e) s = event_answered e (scan_event o.model e) s
  advance (load_final e) s = (loaded (digest_final e) (transcript e s), s)
  advance (load_interim e) s = (loaded (digest_interim e) (transcript e s), s)
  advance (digest_final e events) s =
      final_answered e events (digest_transcript o.model e.trajectory_id events) s
  advance (scan_final e events) s =
      scan_answered e (scan_transcript o.model e.trajectory_id events) s
  advance (digest_interim e events) s =
      interim_answered e (digest_interim_transcript o.model e.trajectory_id events) s
  advance (emit e x rest) s = (continued e rest, emit_scanned e x s)
