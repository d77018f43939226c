-- ===== src/Scans/Run/Ends.antt =====
-- Every spawned scan ends, and gives its permit back (crates/harness/src/scan.rs).
use sondera_coding_agent_hoo.Prelude.{
  ℕ, zero, suc, ◌+◌, ◌≤◌, ◌<◌, Option, none, some, List, [], ◌∷◌, length, ◌≡◌, refl, sym, ap, subst,
  ◌⊎◌, inl, inr, Bool-cases, arith, ◌*◌,
}
use sondera_coding_agent_hoo.Types.Event.{Event}
use sondera_coding_agent_hoo.Types.Scan.{EventScanResult, TranscriptDigest, TranscriptScanResult}
use sondera_coding_agent_hoo.Scans.Scanner.{
  Answer, answered, refused, scan_event, digest_transcript, digest_interim_transcript,
  scan_transcript,
}
use sondera_coding_agent_hoo.Scans.Task.{
  Task, ScanStore, Outside, After, scan_one, load_final, load_interim, digest_final, scan_final,
  digest_interim, emit, stored, record_event_scan, record_digest, record_transcript_scan,
  transcript, loaded, continued, advance, event_answered, final_answered, scan_answered,
  interim_answered,
}
use sondera_coding_agent_hoo.Scans.Dispatch.{
  World, new_dispatcher, settle, step_task, run_task, run_schedule,
}
use sondera_coding_agent_hoo.Scans.Run.{Reach}
use sondera_coding_agent_hoo.Scans.Run.Permits.{IsBalanced, run_task-IsBalanced, Reach-IsBalanced}

-- A bound on the steps that a scan has left.
abbrev pub weight : Task → ℕ
weight (scan_one e) = 2
weight (load_final e) = 5
weight (load_interim e) = 3
weight (digest_final e es) = 4
weight (scan_final e es) = 2
weight (digest_interim e es) = 2
weight (emit e x none) = 1
weight (emit e x (some es)) = 3

abbrev weight_left : Option Task → ℕ
weight_left none = 0
weight_left (some t) = weight t

abbrev pub load : List Task → ℕ
load [] = 0
load (t ∷ ts) = weight t + load ts

module _ (o : Outside) where
  stored_bound :
      (before after : ScanStore) (emitted : Task) (next : Option Task) (n : ℕ)
      → weight emitted ≤ n
      → weight_left next ≤ n
      → weight_left (stored o before after emitted next).0 ≤ n
  unfolding stored
  stored_bound before after emitted next n h k = elim (Bool-cases o.refuses) [
    | inl b ↦ rw b k
    | inr b ↦ rw b h
  ]

  loaded_bound :
      (next : List Event → Task) (n : ℕ) (events : Option (List Event))
      → ((es : List Event) → weight (next es) ≤ n)
      → weight_left (loaded next events) ≤ n
  unfolding loaded
  loaded_bound next n none h = omega arith
  loaded_bound next n (some es) h = h es

  event_answered_bound :
      (e : Event) (a : Answer EventScanResult) (s : ScanStore)
      → weight_left (event_answered o e a s).0 ≤ 1
  unfolding event_answered record_event_scan
  event_answered_bound e (answered r) s = stored_bound s _ _ none 1 (omega arith) (omega arith)
  event_answered_bound e (refused x) s = omega arith

  final_answered_bound :
      (e : Event) (es : List Event) (a : Answer TranscriptDigest) (s : ScanStore)
      → weight_left (final_answered o e es a s).0 ≤ 3
  unfolding final_answered record_digest
  final_answered_bound e es (answered d) s =
      stored_bound s _ _ (some (scan_final e es)) 3 (omega arith) (omega arith)
  final_answered_bound e es (refused x) s = omega arith

  scan_answered_bound :
      (e : Event) (a : Answer TranscriptScanResult) (s : ScanStore)
      → weight_left (scan_answered o e a s).0 ≤ 1
  unfolding scan_answered record_transcript_scan
  scan_answered_bound e (answered r) s = stored_bound s _ _ none 1 (omega arith) (omega arith)
  scan_answered_bound e (refused x) s = omega arith

  interim_answered_bound :
      (e : Event) (a : Answer TranscriptDigest) (s : ScanStore)
      → weight_left (interim_answered o e a s).0 ≤ 1
  unfolding interim_answered record_digest
  interim_answered_bound e (answered d) s = stored_bound s _ _ none 1 (omega arith) (omega arith)
  interim_answered_bound e (refused x) s = omega arith

  advance_bound : (t : Task) (s : ScanStore) → weight_left (advance o t s).0 < weight t
  unfolding advance continued
  advance_bound (scan_one e) s = omega (arith, event_answered_bound e (scan_event o.model e) s)
  advance_bound (load_final e) s =
      omega (arith, loaded_bound (digest_final e) 4 (transcript o e s) (λ es. omega arith))
  advance_bound (load_interim e) s =
      omega (arith, loaded_bound (digest_interim e) 2 (transcript o e s) (λ es. omega arith))
  advance_bound (digest_final e es) s =
      omega (arith, final_answered_bound e es (digest_transcript o.model e.trajectory_id es) s)
  advance_bound (scan_final e es) s =
      omega (arith, scan_answered_bound e (scan_transcript o.model e.trajectory_id es) s)
  advance_bound (digest_interim e es) s =
      omega
        (arith, interim_answered_bound e (digest_interim_transcript o.model e.trajectory_id es) s)
  advance_bound (emit e x none) s = omega arith
  advance_bound (emit e x (some es)) s = omega arith

  load-settle : (ts : List Task) (a : After) → load (settle ts a).tasks ≡ weight_left a.0 + load ts
  unfolding settle
  load-settle ts (none, s) = omega arith
  load-settle ts (some t, s) = refl

  -- A step of a task that is there lowers the load.
  load-step_task :
      (i : ℕ) (ts : List Task) (s : ScanStore)
      → i < length ts
      → load (step_task o i ts s).tasks < load ts
  unfolding step_task
  load-step_task i [] s h = absurd (omega arith)
  load-step_task zero (t ∷ ts) s h =
      omega (arith, load-settle ts (advance o t s), advance_bound t s)
  load-step_task (suc i) (t ∷ ts) s h = omega (arith, load-step_task i ts s (omega arith))

-- Each step of the schedule is a step of a scan that has not ended.
abbrev pub IsBusy : List (Outside × ℕ) → World → Type 0
IsBusy [] w = Unit
IsBusy ((o, i) ∷ rest) w = (i < length w.tasks) × IsBusy rest (run_task o i w)

run_schedule-load :
    (schedule : List (Outside × ℕ)) (w : World)
    → IsBusy schedule w
    → length schedule + load (run_schedule schedule w).tasks ≤ load w.tasks
unfolding run_schedule run_task
run_schedule-load [] w h = omega arith
run_schedule-load ((o, i) ∷ rest) w h =
    let r = run_schedule-load rest (run_task o i w) h.1 in
    omega (arith, r, load-step_task o i w.tasks w.store h.0)

load_bound : (ts : List Task) → load ts ≤ 5 * length ts
load_bound [] = omega arith
load_bound (scan_one e ∷ ts) = omega (arith, load_bound ts)
load_bound (load_final e ∷ ts) = omega (arith, load_bound ts)
load_bound (load_interim e ∷ ts) = omega (arith, load_bound ts)
load_bound (digest_final e es ∷ ts) = omega (arith, load_bound ts)
load_bound (scan_final e es ∷ ts) = omega (arith, load_bound ts)
load_bound (digest_interim e es ∷ ts) = omega (arith, load_bound ts)
load_bound (emit e x none ∷ ts) = omega (arith, load_bound ts)
load_bound (emit e x (some es) ∷ ts) = omega (arith, load_bound ts)

-- Scans cannot run for ever: whatever the model and the store answer and in whichever order the
-- scans take their steps, the scans of a world take at most five steps for each of them.
pub run_schedule-IsBusy :
    (schedule : List (Outside × ℕ)) (w : World)
    → IsBusy schedule w
    → length schedule ≤ 5 * length w.tasks
run_schedule-IsBusy schedule w h = omega (arith, run_schedule-load schedule w h, load_bound w.tasks)

run_schedule-IsBalanced :
    (n : ℕ) (schedule : List (Outside × ℕ)) (w : World)
    → IsBalanced n w
    → IsBalanced n (run_schedule schedule w)
unfolding run_schedule
run_schedule-IsBalanced n [] w b = b
run_schedule-IsBalanced n ((o, i) ∷ rest) w b =
    run_schedule-IsBalanced n rest (run_task o i w) (run_task-IsBalanced n o i w b)

-- The schedule that always runs the first scan.
abbrev pub first_each : (ℕ → Outside) → ℕ → List (Outside × ℕ)
first_each outs zero = []
first_each outs (suc n) = (outs n, 0) ∷ first_each outs n

idle_when_light : (ts : List Task) → load ts ≤ 0 → ts ≡ []
idle_when_light [] h = refl
idle_when_light (scan_one e ∷ ts) h = absurd (omega arith)
idle_when_light (load_final e ∷ ts) h = absurd (omega arith)
idle_when_light (load_interim e ∷ ts) h = absurd (omega arith)
idle_when_light (digest_final e es ∷ ts) h = absurd (omega arith)
idle_when_light (scan_final e es ∷ ts) h = absurd (omega arith)
idle_when_light (digest_interim e es ∷ ts) h = absurd (omega arith)
idle_when_light (emit e x none ∷ ts) h = absurd (omega arith)
idle_when_light (emit e x (some es) ∷ ts) h = absurd (omega arith)

step_idle : (o : Outside) (w : World) → w.tasks ≡ [] → (run_task o 0 w).tasks ≡ []
unfolding run_task step_task
step_idle o w h = rw (h, step_task) refl

first_each_idle :
    (outs : ℕ → Outside) (n : ℕ) (w : World)
    → load w.tasks ≤ n
    → (run_schedule (first_each outs n) w).tasks ≡ []
unfolding run_schedule run_task
first_each_idle outs zero w h = idle_when_light w.tasks h
first_each_idle outs (suc n) w h = elim (tasks_cases w.tasks) [
  | inl e ↦
      first_each_idle outs n (run_task (outs n) 0 w)
        (subst (λ ts. load ts ≤ n) (sym (step_idle (outs n) w e)) (omega arith))
  | inr e ↦
      first_each_idle outs n (run_task (outs n) 0 w)
        (omega (arith, load-step_task (outs n) 0 w.tasks w.store e, h))
]
  where
    tasks_cases : (ts : List Task) → (ts ≡ []) ⊎ (0 < length ts)
    tasks_cases [] = inl refl
    tasks_cases (t ∷ ts) = inr (omega arith)

-- Every scan ends and every permit comes back: from a world that a new dispatcher with `n` permits
-- reaches, where no further event is dispatched, letting five steps per scan run, each on the scan
-- that is first, leaves no scan and `n` free permits, whatever the model and the store answer.
pub first_each-ends :
    (n : ℕ) (s : ScanStore) (w : World) (outs : ℕ → Outside)
    → Reach (new_dispatcher n s) w
    → ((run_schedule (first_each outs (5 * length w.tasks)) w).tasks ≡ [])
      × ((run_schedule (first_each outs (5 * length w.tasks)) w).free ≡ n)
unfolding new_dispatcher
first_each-ends n s w outs r =
    let ended = first_each_idle outs (5 * length w.tasks) w (load_bound w.tasks) in
    (
      ended,
      balanced (run_schedule (first_each outs (5 * length w.tasks)) w) ended (
          run_schedule-IsBalanced n (first_each outs (5 * length w.tasks)) w
            (Reach-IsBalanced n r (omega arith))),
    )
  where
    balanced : (v : World) → v.tasks ≡ [] → IsBalanced n v → v.free ≡ n
    balanced v e b = omega (arith, b, ap length e)
