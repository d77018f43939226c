-- ===== src/Scans/Dispatch.antt =====
-- Which scans an event starts, and the permits that bound them: `ScanDispatcher` of
-- crates/harness/src/scan.rs.
use sondera_coding_agent_hoo.Prelude.{
  ℕ, zero, suc, ◌+◌, max, Option, none, some, List, [], ◌∷◌, ◌++◌, if◌then◌else◌,
}
use sondera_coding_agent_hoo.Types.Event.{Event}
use sondera_coding_agent_hoo.Scans.Scanner.{
  should_scan_transcript, should_digest_interim, is_scanner_output,
}
use sondera_coding_agent_hoo.Scans.Task.{
  Task, ScanStore, Outside, scan_one, load_final, load_interim, advance,
}

-- The permits that are free, the spawned scans that have not ended, and the store.
pub record World : Type 0 where
  pub free : ℕ
  pub tasks : List Task
  pub store : ScanStore

abbrev pub default_max_concurrent_scans : ℕ
default_max_concurrent_scans = 4

-- The permits of `max_concurrency(n)`.
unfoldable pub max_concurrency : ℕ → ℕ
max_concurrency n = max n 1

-- A dispatcher before its first event, with `n` permits.
unfoldable pub new_dispatcher : ℕ → ScanStore → World
new_dispatcher n s = record { free = n; tasks = []; store = s }

unfoldable pub spawn_with : ℕ → Task → World → World
spawn_with zero t w = w
spawn_with (suc n) t w = record w { free = n; tasks = w.tasks ++ t ∷ [] }

-- `spawn_scan`: a scan that finds no permit is dropped.
unfoldable pub spawn_scan : Task → World → World
unfolding spawn_with
spawn_scan t w = spawn_with w.free t w

unfoldable pub dispatch_transcript : Event → World → World
unfolding spawn_scan
dispatch_transcript e w =
    if should_scan_transcript e
    then spawn_scan (load_final e) w
    else if should_digest_interim e
    then spawn_scan (load_interim e) w
    else w

-- `dispatch`.
unfoldable pub dispatch : Event → World → World
unfolding dispatch_transcript
dispatch e w = if is_scanner_output e then w else spawn_scan (scan_one e) (dispatch_transcript e w)

-- What a step of one of the tasks leaves: a task that ends gives its permit back.
pub record Progress : Type 0 where
  pub tasks : List Task
  pub store : ScanStore
  pub freed : ℕ

unfoldable pub settle : List Task → Option Task × ScanStore → Progress
settle ts (none, s) = record { tasks = ts; store = s; freed = 1 }
settle ts (some t, s) = record { tasks = t ∷ ts; store = s; freed = 0 }

-- The step of the task at the index.
unfoldable pub step_task : Outside → ℕ → List Task → ScanStore → Progress
unfolding settle
step_task o i [] s = record { tasks = []; store = s; freed = 0 }
step_task o zero (t ∷ ts) s = settle ts (advance o t s)
step_task o (suc i) (t ∷ ts) s = let r = step_task o i ts s in record r { tasks = t ∷ r.tasks }

unfoldable pub run_task : Outside → ℕ → World → World
unfolding step_task
run_task o i w =
    let r = step_task o i w.tasks w.store in
    record { free = w.free + r.freed; tasks = r.tasks; store = r.store }

-- A schedule: which task takes the next step, and what it meets outside.
unfoldable pub run_schedule : List (Outside × ℕ) → World → World
run_schedule [] w = w
run_schedule ((o, i) ∷ rest) w = run_schedule rest (run_task o i w)
