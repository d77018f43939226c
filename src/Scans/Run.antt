-- ===== src/Scans/Run.antt =====
-- The dispatcher among the other writers of the ledger, as a step relation
-- (crates/harness/src/scan.rs).
pub mod Permits
pub mod Rows
pub mod Backed
pub mod Ends
pub mod Starts
pub mod Apart
use sondera_coding_agent_hoo.Prelude.{ℕ, false, List, [], ◌∷◌, ◌++◌, ◌≡◌}
use sondera_coding_agent_hoo.Types.Event.{Event}
use sondera_coding_agent_hoo.Scans.Scanner.{is_scanner_output}
use sondera_coding_agent_hoo.Scans.Task.{ScanStore, Outside}
use sondera_coding_agent_hoo.Scans.Dispatch.{World, dispatch, run_task}

-- Another writer of the ledger, the harness, appends an event that holds no scan.
unfoldable pub append_event : Event → World → World
append_event e w = record w { store = record w.store { ledger = w.store.ledger ++ e ∷ [] } }

pub data Step : World → World → Type 0 where
  dispatched : (e : Event) {w : World} → Step w (dispatch e w)
  advanced : (o : Outside) (i : ℕ) {w : World} → Step w (run_task o i w)
  appended : (e : Event) {w : World} → is_scanner_output e ≡ false → Step w (append_event e w)

-- The worlds that a run from `a` comes to.
pub data Reach (a : World) : World → Type 0 where
  started : Reach a a
  then_step : {b c : World} → Reach a b → Step b c → Reach a c
