-- ===== src/Types/Summary/Lifecycle/Laws.antt =====
-- Verdicts and scans leave the status of a run alone (crates/types/src/trajectory/summary.rs).
use sondera_coding_agent_hoo.Prelude.{
  true, Option, none, some, List, [], ◌∷◌, ◌≡◌, refl, sym, ◌∙◌, ap, inl, inr, Bool-cases,
}
use sondera_coding_agent_hoo.Prelude.Lists.{true-false}
use sondera_coding_agent_hoo.Types.Control.{Control}
use sondera_coding_agent_hoo.Types.Status.{TrajectoryStatus}
use sondera_coding_agent_hoo.Types.Event.{
  Event, TrajectoryEvent, action, observation, control, state,
}
use sondera_coding_agent_hoo.Types.Summary.Fold.{folded_payload, is_folded_control, visible}
use sondera_coding_agent_hoo.Types.Summary.Lifecycle.{
  find_last, lifecycle_status, status_of, value_or, run_status,
}

folded_payload-status : (p : TrajectoryEvent) → folded_payload p ≡ true → status_of p ≡ none
unfolding folded_payload status_of lifecycle_status
folded_payload-status (control (Control.adjudicated a)) h = refl
folded_payload-status (control (Control.scanned s)) h = refl
folded_payload-status (control (Control.started x)) h = absurd (true-false (sym h))
folded_payload-status (control (Control.completed x)) h = absurd (true-false (sym h))
folded_payload-status (control (Control.failed x)) h = absurd (true-false (sym h))
folded_payload-status (control (Control.terminated x)) h = absurd (true-false (sym h))
folded_payload-status (control (Control.suspended x)) h = absurd (true-false (sym h))
folded_payload-status (control (Control.resumed x)) h = absurd (true-false (sym h))
folded_payload-status (action x) h = refl
folded_payload-status (observation x) h = refl
folded_payload-status (state x) h = refl

without_tail :
    {B : Type 0} (o t : Option B)
    → t ≡ none
    → o ≡ (elim o as (λ _. Option B) [ none ↦ t | some b ↦ some b ])
without_tail none t h = sym h
without_tail (some b) t h = refl

find_last-visible : (run : List Event) → find_last status_of (visible run) ≡ find_last status_of run
unfolding find_last visible is_folded_control
find_last-visible [] = refl
find_last-visible (e ∷ run) = elim (Bool-cases (folded_payload e.event)) [
  | inl f ↦
      rw (f, is_folded_control)
        (find_last-visible run
          ∙ without_tail (find_last status_of run) _ (folded_payload-status e.event f))
  | inr f ↦ rw (f, is_folded_control) (rw (find_last-visible run) refl)
]

-- The status of a run is that of its visible events: the verdicts and scans that are recorded on
-- it, before or after its end, change nothing.
pub run_status-visible : (run : List Event) → run_status run ≡ run_status (visible run)
unfolding run_status
run_status-visible run = ap (λ o. value_or TrajectoryStatus.pending o) (sym (find_last-visible run))
