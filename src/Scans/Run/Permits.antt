-- ===== src/Scans/Run/Permits.antt =====
-- The permits of the dispatcher are never lost and never exceeded (crates/harness/src/scan.rs).
use sondera_coding_agent_hoo.Prelude.{
  ℕ, zero, suc, ◌+◌, ◌≤◌, Option, none, some, List, [], ◌∷◌, length, ◌≡◌, refl, inl, inr,
  Bool-cases, length-append, arith,
}
use sondera_coding_agent_hoo.Types.Event.{Event}
use sondera_coding_agent_hoo.Scans.Scanner.{
  is_scanner_output, should_scan_transcript, should_digest_interim,
}
use sondera_coding_agent_hoo.Scans.Task.{
  Task, ScanStore, Outside, advance, load_final, load_interim, scan_one,
}
use sondera_coding_agent_hoo.Scans.Dispatch.{
  World, new_dispatcher, max_concurrency, spawn_with, spawn_scan, dispatch_transcript, dispatch,
  settle, step_task, run_task,
}
use sondera_coding_agent_hoo.Scans.Run.{
  Step, Reach, dispatched, advanced, appended, started, then_step, append_event,
}

-- The free permits and those that spawned scans hold are `n` together.
abbrev pub IsBalanced : ℕ → World → Type 0
IsBalanced n w = w.free + length w.tasks ≡ n

module _ (n : ℕ) where
  spawn_with-IsBalanced :
      (free : ℕ) (t : Task) (w : World)
      → w.free ≡ free
      → IsBalanced n w
      → IsBalanced n (spawn_with free t w)
  unfolding spawn_with
  spawn_with-IsBalanced zero t w e h = h
  spawn_with-IsBalanced (suc m) t w e h = omega (arith, e, h, length-append w.tasks (t ∷ []))

  spawn_scan-IsBalanced : (t : Task) (w : World) → IsBalanced n w → IsBalanced n (spawn_scan t w)
  unfolding spawn_scan
  spawn_scan-IsBalanced t w h = spawn_with-IsBalanced w.free t w refl h

  dispatch_transcript-IsBalanced :
      (e : Event) (w : World) → IsBalanced n w → IsBalanced n (dispatch_transcript e w)
  unfolding dispatch_transcript
  dispatch_transcript-IsBalanced e w h = elim (Bool-cases (should_scan_transcript e)) [
    | inl a ↦ rw a (spawn_scan-IsBalanced (load_final e) w h)
    | inr a ↦ rw a (elim (Bool-cases (should_digest_interim e)) [
      | inl b ↦ rw b (spawn_scan-IsBalanced (load_interim e) w h)
      | inr b ↦ rw b h
    ])
  ]

  dispatch-IsBalanced : (e : Event) (w : World) → IsBalanced n w → IsBalanced n (dispatch e w)
  unfolding dispatch
  dispatch-IsBalanced e w h = elim (Bool-cases (is_scanner_output e)) [
    | inl a ↦ rw a h
    | inr a ↦ rw a (
        spawn_scan-IsBalanced (scan_one e) (dispatch_transcript e w)
          (dispatch_transcript-IsBalanced e w h))
  ]

  settle-count :
      (ts : List Task) (a : Option Task × ScanStore)
      → length (settle ts a).tasks + (settle ts a).freed ≡ suc (length ts)
  unfolding settle
  settle-count ts (none, s) = omega arith
  settle-count ts (some t, s) = omega arith

  step_task-count :
      (o : Outside) (i : ℕ) (ts : List Task) (s : ScanStore)
      → length (step_task o i ts s).tasks + (step_task o i ts s).freed ≡ length ts
  unfolding step_task
  step_task-count o i [] s = omega arith
  step_task-count o zero (t ∷ ts) s = settle-count ts (advance o t s)
  step_task-count o (suc i) (t ∷ ts) s = omega (arith, step_task-count o i ts s)

  pub run_task-IsBalanced :
      (o : Outside) (i : ℕ) (w : World) → IsBalanced n w → IsBalanced n (run_task o i w)
  unfolding run_task
  run_task-IsBalanced o i w h = omega (arith, h, step_task-count o i w.tasks w.store)

  Step-IsBalanced : {v w : World} → Step v w → IsBalanced n v → IsBalanced n w
  unfolding append_event
  Step-IsBalanced (dispatched e {w}) h = dispatch-IsBalanced e w h
  Step-IsBalanced (advanced o i {w}) h = run_task-IsBalanced o i w h
  Step-IsBalanced (appended e {w} f) h = h

  pub Reach-IsBalanced : {v w : World} → Reach v w → IsBalanced n v → IsBalanced n w
  Reach-IsBalanced started h = h
  Reach-IsBalanced (then_step r s) h = Step-IsBalanced s (Reach-IsBalanced r h)

-- Scans never outpace the harness: from a new dispatcher with the permits of `max_concurrency`, in
-- every order of dispatches, steps of scans and appended events, no more scans than that, and never
-- fewer than one, can run at once, and the permits that no scan holds are all free.
pub Reach-permits :
    (limit : ℕ) (s : ScanStore) (w : World)
    → Reach (new_dispatcher (max_concurrency limit) s) w
    → (length w.tasks ≤ max_concurrency limit)
      × (w.free + length w.tasks ≡ max_concurrency limit)
      × (1 ≤ max_concurrency limit)
unfolding new_dispatcher max_concurrency
Reach-permits limit s w r =
    let b = Reach-IsBalanced (max_concurrency limit) r (omega arith) in
    (omega (arith, b), b, omega arith)
