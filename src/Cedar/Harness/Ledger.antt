-- ===== src/Cedar/Harness/Ledger.antt =====
-- The ledgers over one adjudication (crates/policy/cedar/src/lib.rs): what is refused is stored
-- redacted, whichever access fails.
use sondera_coding_agent_hoo.Prelude.{◌≡◌, ◌≢◌, ◌⊎◌, refl, sym, ◌∙◌, inl, inr, subst, ap}
use sondera_coding_agent_hoo.Types.Policy.{Decision}
use sondera_coding_agent_hoo.Types.Control.{Control, Adjudicated}
use sondera_coding_agent_hoo.Types.Event.{
  Event, Fresh, TrajectoryEvent, action, observation, control, state,
}
use sondera_coding_agent_hoo.Types.Redact.{redact_file_content}
use sondera_coding_agent_hoo.Cedar.Store.{
  Db, Faults, Result, Outcome, ok, err, and_then, ensure_agent_entity,
}
use sondera_coding_agent_hoo.Cedar.Store.Laws.{Quiet, Quiet-trans, Quiet-ensure_agent_entity}
use sondera_coding_agent_hoo.Cedar.Harness.{
  Harness, evaluate, stored_form, verdict_event, after_evaluation, record_control, adjudicate_event,
}
use sondera_coding_agent_hoo.Cedar.Harness.Laws.{
  Gains, Gains-trans, Gains-Quiet, Gains-after_evaluation, Quiet-evaluate, IsJudged, Written,
}

module _ (h : Harness) (faults : Faults) (fresh : Fresh) (event : Event) where
  -- The outcome of `evaluate`, in the state that `ensure_agent_entity` leaves.
  abbrev pub outcome_of : Db → Result Adjudicated
  outcome_of db = (evaluate h faults event (ensure_agent_entity faults event.agent.id db).1).0

  pub judged_branch :
      (payload : TrajectoryEvent) (f : Control → Outcome Adjudicated) (o : Outcome Adjudicated)
      → IsJudged payload
      → (elim payload as (λ x. Outcome Adjudicated) [
        | control c ↦ f c
        | action a ↦ o
        | observation b ↦ o
        | state s ↦ o
      ])
        ≡ o
  judged_branch (control c) f o j = absurd j
  judged_branch (action a) f o j = refl
  judged_branch (observation b) f o j = refl
  judged_branch (state s) f o j = refl

  Gains-judged :
      (db : Db) (o : Outcome Unit)
      → Quiet db o.1
      → IsJudged event.event
      → Gains
          (Written h faults fresh event (evaluate h faults event o.1).0)
          db
          (and_then o (λ _ db1. elim event.event as (λ x. Outcome Adjudicated) [
            | control c ↦ record_control h faults c event db1
            | action a ↦ after_evaluation h faults fresh event (evaluate h faults event db1)
            | observation b ↦ after_evaluation h faults fresh event (evaluate h faults event db1)
            | state s ↦ after_evaluation h faults fresh event (evaluate h faults event db1)
          ])).1
  Gains-judged db (err e, db1) q j = Gains-Quiet _ db db1 q
  Gains-judged db (ok u, db1) q j =
      let o = evaluate h faults event db1 in
      let P = Written h faults fresh event o.0 in
      subst (λ r. Gains P db r.1)
        (sym (judged_branch event.event _ (after_evaluation h faults fresh event o) j))
        (Gains-trans P db o.1 (after_evaluation h faults fresh event o).1
          (Gains-Quiet P db o.1 (Quiet-trans q (Quiet-evaluate h faults event db1)))
          (Gains-after_evaluation h faults fresh event o))

  Gains-adjudicate_event :
      (db : Db)
      → IsJudged event.event
      → Gains
          (Written h faults fresh event (outcome_of db))
          db
          (adjudicate_event h faults fresh event db).1
  unfolding adjudicate_event
  Gains-adjudicate_event db j =
      Gains-judged db (ensure_agent_entity faults event.agent.id db)
        (Quiet-ensure_agent_entity faults event.agent.id db) j

  stored_form_refused :
      (outcome : Result Adjudicated)
      → ((a : Adjudicated) → outcome ≡ ok a → a.decision ≢ Decision.allow)
      → stored_form h faults outcome event ≡ redact_file_content h.sha256 event
  unfolding stored_form
  stored_form_refused (err e) refused = refl
  stored_form_refused (ok a) refused = by_decision a.decision (refused a refl)
    where
      by_decision :
          (d : Decision)
          → d ≢ Decision.allow
          → (elim d as (λ x. Event) [
            | Decision.allow ↦ event
            | Decision.deny ↦ redact_file_content h.sha256 event
            | Decision.escalate ↦ redact_file_content h.sha256 event
          ])
            ≡ redact_file_content h.sha256 event
      by_decision Decision.allow n = absurd (n refl)
      by_decision Decision.deny n = refl
      by_decision Decision.escalate n = refl

-- Refused bytes reach neither ledger: where the evaluation of an event that is no lifecycle record
-- fails, or its verdict is not Allow, then, whichever access of the store fails, each event that
-- the database or the file gains is the redacted event, or the record of the verdict on it.
pub adjudicate_event_redacts :
    (h : Harness) (faults : Faults) (fresh : Fresh) (event : Event) (db : Db)
    → IsJudged event.event
    → ((a : Adjudicated) → outcome_of h faults fresh event db ≡ ok a → a.decision ≢ Decision.allow)
    → Gains
        (λ x.
          (x ≡ redact_file_content h.sha256 event)
          ⊎ ((a : Adjudicated) × (x
                ≡ verdict_event h faults fresh (redact_file_content h.sha256 event) a)))
        db
        (adjudicate_event h faults fresh event db).1
adjudicate_event_redacts h faults fresh event db j refused =
    let g = Gains-adjudicate_event h faults fresh event db j in
    record { events = λ x m. narrowed (g.events x m); file = λ x m. narrowed (g.file x m) }
  where
    form :
        stored_form h faults (outcome_of h faults fresh event db) event
        ≡ redact_file_content h.sha256 event
    form = stored_form_refused h faults fresh event _ refused

    narrowed :
        {Q : Type 0} {x : Event}
        → Q ⊎ Written h faults fresh event (outcome_of h faults fresh event db) x
        → Q
          ⊎ ((x ≡ redact_file_content h.sha256 event)
              ⊎ ((a : Adjudicated) × (x
                    ≡ verdict_event h faults fresh (redact_file_content h.sha256 event) a)))
    narrowed (inl q) = inl q
    narrowed (inr (inl e)) = inr (inl (e ∙ form))
    narrowed (inr (inr (a, (f, e)))) =
        inr (inr (a, e ∙ ap (λ s. verdict_event h faults fresh s a) form))
