-- ===== src/Scans/Run/Apart.antt =====
-- Scans stay apart from enforcement (crates/harness/src/scan.rs): they change no verdict and start
-- no scans.
use sondera_coding_agent_hoo.Prelude.{
  ℕ, zero, suc, true, Option, none, some, List, [], ◌∷◌, ◌++◌, ◌≡◌, refl, sym, ap, ◌∙◌, inl, inr,
  Bool-cases, Option-cases,
}
use sondera_coding_agent_hoo.Types.Event.{Event, Fresh, new_event, with_actor, with_causality}
use sondera_coding_agent_hoo.Types.Scan.{
  Scanned, EventScanResult, TranscriptDigest, TranscriptScanResult,
}
use sondera_coding_agent_hoo.Types.Summary.Fold.{visible, is_folded_control, folded_payload}
use sondera_coding_agent_hoo.Types.Summary.Verdicts.{
  verdicts, verdict_of, run_decision, run_policy_hits, most_severe, hits_from,
}
use sondera_coding_agent_hoo.Types.Summary.Lifecycle.{run_status}
use sondera_coding_agent_hoo.Types.Summary.Lifecycle.Laws.{run_status-visible}
use sondera_coding_agent_hoo.Scans.Scanner.{
  Answer, answered, refused, scan_event, digest_transcript, digest_interim_transcript,
  scan_transcript, is_scanner_output, scanned_payload,
}
use sondera_coding_agent_hoo.Scans.Task.{
  Task, ScanStore, Outside, After, scan_one, load_final, load_interim, digest_final, scan_final,
  digest_interim, emit, stored, record_event_scan, record_digest, record_transcript_scan, advance,
  event_answered, final_answered, scan_answered, interim_answered, emit_scanned, scanned_record,
}
use sondera_coding_agent_hoo.Scans.Dispatch.{
  World, settle, step_task, run_task, run_schedule, dispatch,
}

-- Two ledgers of one run that show a reader the same events and the same verdicts.
record IsSame (run run' : List Event) : Type 0 where
  seen : visible run' ≡ visible run
  judged : verdicts run' ≡ verdicts run

IsSame-refl : (run : List Event) → IsSame run run
IsSame-refl run = record { seen = refl; judged = refl }

IsSame-trans : (a b c : List Event) → IsSame a b → IsSame b c → IsSame a c
IsSame-trans a b c h k = record { seen = k.seen ∙ h.seen; judged = k.judged ∙ h.judged }

visible-hidden :
    (run : List Event) (e : Event)
    → folded_payload e.event ≡ true
    → visible (run ++ e ∷ []) ≡ visible run
unfolding visible is_folded_control
visible-hidden [] e h = rw (h, is_folded_control) refl
visible-hidden (x ∷ run) e h = elim (Bool-cases (folded_payload x.event)) [
  | inl f ↦ rw (f, is_folded_control) (visible-hidden run e h)
  | inr f ↦ rw (f, is_folded_control) (ap (λ r. x ∷ r) (visible-hidden run e h))
]

verdicts-hidden :
    (run : List Event) (e : Event)
    → verdict_of e.event ≡ none
    → verdicts (run ++ e ∷ []) ≡ verdicts run
unfolding verdicts
verdicts-hidden [] e h = rw (h, verdicts) refl
verdicts-hidden (x ∷ run) e h = elim (Option-cases (verdict_of x.event)) [
  | inl f ↦ rw (f, verdicts) (verdicts-hidden run e h)
  | inr (a, f) ↦ rw (f, verdicts) (ap (λ r. a ∷ r) (verdicts-hidden run e h))
]

module _ (o : Outside) where
  IsSame-emit :
      (e : Event) (x : Scanned) (s : ScanStore) → IsSame s.ledger (emit_scanned o e x s).ledger
  unfolding emit_scanned scanned_record new_event with_actor with_causality folded_payload
      verdict_of
  IsSame-emit e x s = elim (Bool-cases o.refuses) [
    | inl b ↦ rw b (IsSame-refl s.ledger)
    | inr b ↦ rw b (record {
      seen = visible-hidden s.ledger (scanned_record o.fresh e x) refl;
      judged = verdicts-hidden s.ledger (scanned_record o.fresh e x) refl;
    })
  ]

  IsSame-stored :
      (s s' : ScanStore) (emitted : Task) (next : Option Task)
      → s'.ledger ≡ s.ledger
      → IsSame s.ledger (stored o s s' emitted next).1.ledger
  unfolding stored
  IsSame-stored s s' emitted next h = elim (Bool-cases o.refuses) [
    | inl b ↦ rw b (IsSame-refl s.ledger)
    | inr b ↦ rw b (record { seen = ap visible h; judged = ap verdicts h })
  ]

  IsSame-event_answered :
      (e : Event) (a : Answer EventScanResult) (s : ScanStore)
      → IsSame s.ledger (event_answered o e a s).1.ledger
  unfolding event_answered record_event_scan
  IsSame-event_answered e (answered r) s = IsSame-stored s _ _ none refl
  IsSame-event_answered e (refused x) s = IsSame-refl s.ledger

  IsSame-final_answered :
      (e : Event) (es : List Event) (a : Answer TranscriptDigest) (s : ScanStore)
      → IsSame s.ledger (final_answered o e es a s).1.ledger
  unfolding final_answered record_digest
  IsSame-final_answered e es (answered r) s = IsSame-stored s _ _ _ refl
  IsSame-final_answered e es (refused x) s = IsSame-refl s.ledger

  IsSame-scan_answered :
      (e : Event) (a : Answer TranscriptScanResult) (s : ScanStore)
      → IsSame s.ledger (scan_answered o e a s).1.ledger
  unfolding scan_answered record_transcript_scan
  IsSame-scan_answered e (answered r) s = IsSame-stored s _ _ none refl
  IsSame-scan_answered e (refused x) s = IsSame-refl s.ledger

  IsSame-interim_answered :
      (e : Event) (a : Answer TranscriptDigest) (s : ScanStore)
      → IsSame s.ledger (interim_answered o e a s).1.ledger
  unfolding interim_answered record_digest
  IsSame-interim_answered e (answered r) s = IsSame-stored s _ _ none refl
  IsSame-interim_answered e (refused x) s = IsSame-refl s.ledger

  IsSame-advance : (t : Task) (s : ScanStore) → IsSame s.ledger (advance o t s).1.ledger
  unfolding advance
  IsSame-advance (scan_one e) s = IsSame-event_answered e (scan_event o.model e) s
  IsSame-advance (load_final e) s = IsSame-refl s.ledger
  IsSame-advance (load_interim e) s = IsSame-refl s.ledger
  IsSame-advance (digest_final e es) s =
      IsSame-final_answered e es (digest_transcript o.model e.trajectory_id es) s
  IsSame-advance (scan_final e es) s =
      IsSame-scan_answered e (scan_transcript o.model e.trajectory_id es) s
  IsSame-advance (digest_interim e es) s =
      IsSame-interim_answered e (digest_interim_transcript o.model e.trajectory_id es) s
  IsSame-advance (emit e x rest) s = IsSame-emit e x s

  settle_store : (ts : List Task) (a : After) → (settle ts a).store ≡ a.1
  unfolding settle
  settle_store ts (none, s) = refl
  settle_store ts (some t, s) = refl

  IsSame-step_task :
      (i : ℕ) (ts : List Task) (s : ScanStore) → IsSame s.ledger (step_task o i ts s).store.ledger
  unfolding step_task
  IsSame-step_task i [] s = IsSame-refl s.ledger
  IsSame-step_task zero (t ∷ ts) s = rw (settle_store ts (advance o t s)) (IsSame-advance t s)
  IsSame-step_task (suc i) (t ∷ ts) s = IsSame-step_task i ts s

IsSame-run_schedule :
    (schedule : List (Outside × ℕ)) (w : World)
    → IsSame w.store.ledger (run_schedule schedule w).store.ledger
unfolding run_schedule run_task
IsSame-run_schedule [] w = IsSame-refl w.store.ledger
IsSame-run_schedule ((o, i) ∷ rest) w =
    IsSame-trans w.store.ledger (run_task o i w).store.ledger _
      (IsSame-step_task o i w.tasks w.store) (IsSame-run_schedule rest (run_task o i w))

-- A scan never changes the outcome of a run: whatever steps the scans of a world take, with whatever
-- answers of the model and the store, the ledger keeps its visible events, its decision, its policy
-- hits and its status.
pub run_schedule-apart :
    (schedule : List (Outside × ℕ)) (w : World)
    → (visible (run_schedule schedule w).store.ledger ≡ visible w.store.ledger)
      × (run_decision (run_schedule schedule w).store.ledger ≡ run_decision w.store.ledger)
      × (run_policy_hits (run_schedule schedule w).store.ledger ≡ run_policy_hits w.store.ledger)
      × (run_status (run_schedule schedule w).store.ledger ≡ run_status w.store.ledger)
unfolding run_decision run_policy_hits
run_schedule-apart schedule w =
    let h = IsSame-run_schedule schedule w in
    (
      h.seen,
      ap (λ vs. most_severe none vs) h.judged,
      ap (λ vs. hits_from vs []) h.judged,
      run_status-visible _ ∙ ap run_status h.seen ∙ sym (run_status-visible w.store.ledger),
    )

-- Scanning does not feed itself: the record that a scan appends, dispatched, changes nothing, so
-- no scan is ever started by a scan.
pub dispatch-scanned_record :
    (fresh : Fresh) (e : Event) (x : Scanned) (w : World)
    → dispatch (scanned_record fresh e x) w ≡ w
unfolding dispatch is_scanner_output scanned_payload scanned_record new_event with_actor
    with_causality
dispatch-scanned_record fresh e x w = refl
