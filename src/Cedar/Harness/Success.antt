-- ===== src/Cedar/Harness/Success.antt =====
-- What a successful adjudication leaves behind (crates/policy/cedar/src/lib.rs).
use sondera_coding_agent_hoo.Prelude.{
  List, [], ◌∷◌, ◌++◌, ◌≡◌, refl, sym, ◌∙◌, inl, inr, Option-cases, subst, ap,
}
use sondera_coding_agent_hoo.Prelude.Text.{Text, codes}
use sondera_coding_agent_hoo.Types.Control.{Adjudicated}
use sondera_coding_agent_hoo.Types.Event.{Event, Fresh, action, observation, control, state}
use sondera_coding_agent_hoo.Cedar.Entity.{euid}
use sondera_coding_agent_hoo.Cedar.Store.{
  Db, Faults, Result, Outcome, ok, err, and_then, attempt, append_file, insert_event, get, persist,
  ensure_agent_entity,
}
use sondera_coding_agent_hoo.Cedar.Store.Laws.{
  Quiet, Quiet-trans, Quiet-get, Quiet-ensure_agent_entity,
}
use sondera_coding_agent_hoo.Cedar.Harness.{
  Harness, evaluate, stored_form, verdict_event, finish, after_evaluation, record_control,
  adjudicate_event,
}
use sondera_coding_agent_hoo.Cedar.Harness.Laws.{IsJudged, Quiet-evaluate}
use sondera_coding_agent_hoo.Cedar.Harness.Ledger.{outcome_of, judged_branch}

-- Both ledgers gained just these events.
pub record Appends (es : List Event) (db db' : Db) : Type 0 where
  pub events : db'.events ≡ db.events ++ es
  pub file : db'.file ≡ db.file ++ es

append_assoc : (xs ys zs : List Event) → (xs ++ ys) ++ zs ≡ xs ++ (ys ++ zs)
append_assoc [] ys zs = refl
append_assoc (x ∷ xs) ys zs = ap (λ r. x ∷ r) (append_assoc xs ys zs)

Appends-both :
    {a b c : Db} (es fs : List Event) → Appends es a b → Appends fs b c → Appends (es ++ fs) a c
Appends-both {a} {b} {c} es fs h k = record {
  events = k.events ∙ ap (λ l. l ++ fs) h.events ∙ append_assoc a.events es fs;
  file = k.file ∙ ap (λ l. l ++ fs) h.file ∙ append_assoc a.file es fs;
}

pub Appends-after : {a b c : Db} (es : List Event) → Quiet a b → Appends es b c → Appends es a c
Appends-after es q h = record {
  events = h.events ∙ ap (λ l. l ++ es) q.events;
  file = h.file ∙ ap (λ l. l ++ es) q.file;
}

module _ (faults : Faults) where
  pub persist_ok :
      (e : Event) (db : Db)
      → (persist faults e db).0 ≡ ok tt
      → Appends (e ∷ []) db (persist faults e db).1
  unfolding persist
  persist_ok e db = elim (Option-cases (faults append_file db)) [
    | inr (x, f) ↦ rw (f, persist, attempt) (λ h. cc)
    | inl f ↦
        rw (f, persist, attempt)
          (elim (Option-cases (faults insert_event (record db { file = db.file ++ e ∷ [] }))) [
            | inr (x, g) ↦ rw (g, persist, attempt) (λ h. cc)
            | inl g ↦ rw (g, persist, attempt) (λ h. record { events = refl; file = refl })
          ])
  ]

  pub no_value : {A : Type 0} {e : Text} {a : A} → err e ≡ ok a → ⊥
  no_value k = cc

  last_ok :
      (e : Event) (a b : Adjudicated) (db db1 : Db) (p : Outcome Unit)
      → (p.0 ≡ ok tt → Appends (e ∷ []) db1 p.1)
      → Quiet db db1
      → (and_then p (λ _ db2. (ok b, db2))).0 ≡ ok a
      → (ok b ≡ ok a) × Appends (e ∷ []) db (and_then p (λ _ db2. (ok b, db2))).1
  last_ok e a b db db1 (err x, db2) h q k = absurd (no_value k)
  last_ok e a b db db1 (ok u, db2) h q k = (k, Appends-after (e ∷ []) q (h refl))

  rest_ok :
      {X : Type 0} (e : Event) (a b : Adjudicated) (db : Db) (o : Outcome X)
      → Quiet db o.1
      → (and_then o (λ _ db1. and_then (persist faults e db1) (λ _ db2. (ok b, db2)))).0 ≡ ok a
      → (ok b ≡ ok a)
        × Appends
            (e ∷ [])
            db
            (and_then o (λ _ db1. and_then (persist faults e db1) (λ _ db2. (ok b, db2)))).1
  rest_ok e a b db (err x, db1) q k = absurd (no_value k)
  rest_ok e a b db (ok x, db1) q k =
      last_ok e a b db db1 (persist faults e db1) (persist_ok e db1) q k

module _ (h : Harness) (faults : Faults) (fresh : Fresh) where
  inner : {a b : Adjudicated} → ok b ≡ ok a → b ≡ a
  inner k = cc

  finish_ok :
      (event : Event) (outcome : Result Adjudicated) (persisted : Outcome Unit) (a : Adjudicated)
      → (finish h faults fresh event outcome persisted).0 ≡ ok a
      → (outcome ≡ ok a)
        × ((persisted.0 ≡ ok tt)
            × Appends
                (verdict_event h faults fresh event a ∷ [])
                persisted.1
                (finish h faults fresh event outcome persisted).1)
  unfolding finish
  finish_ok event (err e) (r, db) a k = absurd (no_value faults k)
  finish_ok event (ok b) (err e, db) a k = absurd (no_value faults k)
  finish_ok event (ok b) (ok u, db) a k =
      let done =
        rest_ok faults (verdict_event h faults fresh event b) a b db
          (get faults (euid (codes "Trajectory") event.trajectory_id) db) (Quiet-get faults _ db)
          k in
      (
        done.0,
        (
          refl,
          subst
              (λ x.
                Appends (verdict_event h faults fresh event x ∷ []) db
                  (finish h faults fresh event (ok b) (ok u, db)).1)
              (inner done.0) done.1,
        ),
      )

  -- The two events that a successful adjudication records.
  abbrev pub both_events : Event → Adjudicated → List Event
  both_events event a =
      let stored = stored_form h faults (ok a) event in
      stored ∷ verdict_event h faults fresh stored a ∷ []

  after_evaluation_ok :
      (event : Event) (o : Outcome Adjudicated) (a : Adjudicated)
      → (after_evaluation h faults fresh event o).0 ≡ ok a
      → (o.0 ≡ ok a) × Appends (both_events event a) o.1 (after_evaluation h faults fresh event o).1
  unfolding after_evaluation
  after_evaluation_ok event o a k =
      let s = stored_form h faults o.0 event in
      let done = finish_ok s o.0 (persist faults s o.1) a k in
      let both =
        Appends-both (s ∷ []) (verdict_event h faults fresh s a ∷ [])
          (persist_ok faults s o.1 done.1.0) done.1.1 in
      (
        done.0,
        subst
            (λ r.
              Appends
                (stored_form h faults r event
                  ∷ verdict_event h faults fresh (stored_form h faults r event) a
                  ∷ [])
                o.1 (after_evaluation h faults fresh event o).1)
            done.0 both,
      )

  judged_ok :
      (event : Event) (db : Db) (o : Outcome Unit) (a : Adjudicated) (out : Outcome Adjudicated)
      → Quiet db o.1
      → (out ≡ after_evaluation h faults fresh event (evaluate h faults event o.1))
      → out.0 ≡ ok a
      → ((evaluate h faults event o.1).0 ≡ ok a) × Appends (both_events event a) db out.1
  judged_ok event db o a out q e k =
      let evaluated = evaluate h faults event o.1 in
      let done = after_evaluation_ok event evaluated a (ap (λ r. r.0) (sym e) ∙ k) in
      (
        done.0,
        subst (λ r. Appends (both_events event a) db r.1) (sym e)
            (Appends-after (both_events event a) (Quiet-trans q (Quiet-evaluate h faults event o.1))
              done.1),
      )

  dispatch_ok :
      (event : Event) (db : Db) (o : Outcome Unit) (a : Adjudicated)
      → Quiet db o.1
      → IsJudged event.event
      → (and_then o (λ _ db1. elim event.event as (λ x. Outcome Adjudicated) [
        | control c ↦ record_control h faults c event db1
        | action x ↦ after_evaluation h faults fresh event (evaluate h faults event db1)
        | observation x ↦ after_evaluation h faults fresh event (evaluate h faults event db1)
        | state x ↦ after_evaluation h faults fresh event (evaluate h faults event db1)
      ])).0
        ≡ ok a
      → ((evaluate h faults event o.1).0 ≡ ok a)
        × Appends
            (both_events event a)
            db
            (and_then o (λ _ db1. elim event.event as (λ x. Outcome Adjudicated) [
              | control c ↦ record_control h faults c event db1
              | action x ↦ after_evaluation h faults fresh event (evaluate h faults event db1)
              | observation x ↦ after_evaluation h faults fresh event (evaluate h faults event db1)
              | state x ↦ after_evaluation h faults fresh event (evaluate h faults event db1)
            ])).1
  dispatch_ok event db (err e, db1) a q j k = absurd (no_value faults k)
  dispatch_ok event db (ok u, db1) a q j k =
      judged_ok event db (ok u, db1) a _ q (judged_branch h faults fresh event event.event _ _ j) k

-- A verdict is always on record: where the adjudication of an event that is no lifecycle record
-- returns a verdict, evaluation gave that verdict, and the database and the file both gained
-- exactly two events: the source event, as it came where the verdict is Allow and redacted
-- otherwise, and behind it the record of this verdict.
pub adjudicate_event_records :
    (h : Harness) (faults : Faults) (fresh : Fresh) (event : Event) (db : Db) (a : Adjudicated)
    → IsJudged event.event
    → (adjudicate_event h faults fresh event db).0 ≡ ok a
    → (outcome_of h faults fresh event db ≡ ok a)
      × Appends (both_events h faults fresh event a) db (adjudicate_event h faults fresh event db).1
unfolding adjudicate_event
adjudicate_event_records h faults fresh event db a j =
    dispatch_ok h faults fresh event db (ensure_agent_entity faults event.agent.id db) a
      (Quiet-ensure_agent_entity faults event.agent.id db) j
