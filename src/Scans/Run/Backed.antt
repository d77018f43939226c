-- ===== src/Scans/Run/Backed.antt =====
-- In every run, each record of a scan has its row (crates/harness/src/scan.rs).
use sondera_coding_agent_hoo.Prelude.{
  ℕ, zero, suc, false, none, some, List, [], ◌∷◌, ◌++◌, All, All-append, ◌≡◌, sym, ap, ◌∙◌, inl,
  inr, Bool-cases,
}
use sondera_coding_agent_hoo.Prelude.Lists.{true-false}
use sondera_coding_agent_hoo.Types.Control.{scanned}
use sondera_coding_agent_hoo.Types.Scan.{Scanned}
use sondera_coding_agent_hoo.Types.Event.{Event, control}
use sondera_coding_agent_hoo.Scans.Scanner.{
  is_scanner_output, scanned_payload, should_scan_transcript, should_digest_interim,
}
use sondera_coding_agent_hoo.Scans.Task.{
  Task, ScanStore, Outside, After, scan_one, load_final, load_interim, emit, advance,
}
use sondera_coding_agent_hoo.Scans.Dispatch.{
  World, Progress, new_dispatcher, settle, step_task, run_task, spawn_with, spawn_scan,
  dispatch_transcript, dispatch,
}
use sondera_coding_agent_hoo.Scans.Run.{
  Step, Reach, dispatched, advanced, appended, started, then_step, append_event,
}
use sondera_coding_agent_hoo.Scans.Run.Rows.{
  HasRow, HasRow-ledger, IsBacked, IsDue, Kept, Kept-advance, IsBacked-append,
}

-- The ledger is backed, and so is each record that a scan is about to append.
record IsSound (s : ScanStore) (ts : List Task) : Type 0 where
  backed : IsBacked s
  due : All (IsDue s) ts

IsDue-grows :
    (s s' : ScanStore) (t : Task)
    → ((x : Scanned) → HasRow s x → HasRow s' x)
    → IsDue s t
    → IsDue s' t
IsDue-grows s s' (emit e x rest) g d = g x d
IsDue-grows s s' (Task.scan_one e) g d = tt
IsDue-grows s s' (Task.load_final e) g d = tt
IsDue-grows s s' (Task.load_interim e) g d = tt
IsDue-grows s s' (Task.digest_final e es) g d = tt
IsDue-grows s s' (Task.scan_final e es) g d = tt
IsDue-grows s s' (Task.digest_interim e es) g d = tt

All-grows :
    (s s' : ScanStore) (ts : List Task)
    → ((x : Scanned) → HasRow s x → HasRow s' x)
    → All (IsDue s) ts
    → All (IsDue s') ts
All-grows s s' [] g h = tt
All-grows s s' (t ∷ ts) g h = (IsDue-grows s s' t g h.0, All-grows s s' ts g h.1)

-- What a step of one task keeps of the others.
record Moved (s : ScanStore) (p : Progress) : Type 0 where
  grows : (x : Scanned) → HasRow s x → HasRow p.store x
  due : All (IsDue p.store) p.tasks
  backed : IsBacked s → IsBacked p.store

Moved-settle :
    (s : ScanStore) (ts : List Task) (a : After)
    → Kept s a
    → All (IsDue s) ts
    → Moved s (settle ts a)
unfolding settle
Moved-settle s ts (none, s') k h = record {
  grows = k.grows;
  due = All-grows s s' ts k.grows h;
  backed = k.backed;
}
Moved-settle s ts (some t, s') k h = record {
  grows = k.grows;
  due = (k.next, All-grows s s' ts k.grows h);
  backed = k.backed;
}

Moved-step_task :
    (o : Outside) (i : ℕ) (ts : List Task) (s : ScanStore)
    → All (IsDue s) ts
    → Moved s (step_task o i ts s)
unfolding step_task
Moved-step_task o i [] s h = record { grows = λ x r. r; due = tt; backed = λ b. b }
Moved-step_task o zero (t ∷ ts) s h = Moved-settle s ts (advance o t s) (Kept-advance o t s h.0) h.1
Moved-step_task o (suc i) (t ∷ ts) s h =
    let m = Moved-step_task o i ts s h.1 in
    record {
      grows = m.grows;
      due = (IsDue-grows s (step_task o i ts s).store t m.grows h.0, m.due);
      backed = m.backed;
    }

spawn_with-IsSound :
    (n : ℕ) (t : Task) (w : World)
    → IsDue w.store t
    → IsSound w.store w.tasks
    → IsSound (spawn_with n t w).store (spawn_with n t w).tasks
unfolding spawn_with
spawn_with-IsSound zero t w d h = h
spawn_with-IsSound (suc n) t w d h = record {
  backed = h.backed;
  due = All-append (IsDue w.store) w.tasks (t ∷ []) h.due (d, tt);
}

dispatch_transcript-IsSound :
    (e : Event) (w : World)
    → IsSound w.store w.tasks
    → IsSound (dispatch_transcript e w).store (dispatch_transcript e w).tasks
unfolding dispatch_transcript spawn_scan
dispatch_transcript-IsSound e w h = elim (Bool-cases (should_scan_transcript e)) [
  | inl a ↦ rw a (spawn_with-IsSound w.free (load_final e) w tt h)
  | inr a ↦ rw a (elim (Bool-cases (should_digest_interim e)) [
    | inl b ↦ rw b (spawn_with-IsSound w.free (load_interim e) w tt h)
    | inr b ↦ rw b h
  ])
]

dispatch-IsSound :
    (e : Event) (w : World)
    → IsSound w.store w.tasks
    → IsSound (dispatch e w).store (dispatch e w).tasks
unfolding dispatch spawn_scan
dispatch-IsSound e w h = elim (Bool-cases (is_scanner_output e)) [
  | inl a ↦ rw a h
  | inr a ↦ rw a (
      let v = dispatch_transcript e w in
      spawn_with-IsSound v.free (scan_one e) v tt (dispatch_transcript-IsSound e w h))
]

not_scanned :
    (e : Event) (x : Scanned) → is_scanner_output e ≡ false → e.event ≡ control (scanned x) → ⊥
unfolding is_scanner_output scanned_payload
not_scanned e x f k = true-false (ap scanned_payload (sym k) ∙ f)

Step-IsSound : {v w : World} → Step v w → IsSound v.store v.tasks → IsSound w.store w.tasks
unfolding run_task append_event
Step-IsSound (dispatched e {w}) h = dispatch-IsSound e w h
Step-IsSound (advanced o i {w}) h =
    let m = Moved-step_task o i w.tasks w.store h.due in
    record { backed = m.backed h.backed; due = m.due }
Step-IsSound (appended e {w} f) h = record {
  backed = IsBacked-append w.store e (λ x k. absurd (not_scanned e x f k)) h.backed;
  due =
      All-grows w.store (record w.store { ledger = w.store.ledger ++ e ∷ [] }) w.tasks
        (λ x r. HasRow-ledger w.store (w.store.ledger ++ e ∷ []) x r) h.due;
}

Reach-IsSound : {v w : World} → Reach v w → IsSound v.store v.tasks → IsSound w.store w.tasks
Reach-IsSound started h = h
Reach-IsSound (then_step r s) h = Step-IsSound s (Reach-IsSound r h)

-- A reader never sees a record of a scan that was not stored: where a dispatcher starts on a ledger
-- whose records of scans have their rows, each record of a scan that is in the ledger later has a
-- row under the id of its source event, in the table of its kind, in every order of dispatches,
-- steps of scans and appended events, and whatever accesses of the store fail.
pub Reach-IsBacked :
    (n : ℕ) (s : ScanStore) (w : World)
    → IsBacked s
    → Reach (new_dispatcher n s) w
    → IsBacked w.store
unfolding new_dispatcher
Reach-IsBacked n s w b r = (Reach-IsSound r (record { backed = b; due = tt })).backed
