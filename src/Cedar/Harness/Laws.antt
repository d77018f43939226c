-- ===== src/Cedar/Harness/Laws.antt =====
-- What an adjudication writes to the ledgers (crates/policy/cedar/src/lib.rs).
use sondera_coding_agent_hoo.Prelude.{
  List, [], ◌∷◌, ◌++◌, ◌≡◌, ◌⊎◌, refl, sym, inl, inr, Has, Option-cases, subst,
}
use sondera_coding_agent_hoo.Prelude.Text.{codes}
use sondera_coding_agent_hoo.Types.Control.{Adjudicated}
use sondera_coding_agent_hoo.Types.Event.{Event, Fresh, TrajectoryEvent, control}
use sondera_coding_agent_hoo.Cedar.Entity.{euid}
use sondera_coding_agent_hoo.Cedar.Store.{
  Db, Faults, Result, Outcome, ok, err, attempt, all_entities, append_file, insert_event, get,
  persist,
}
use sondera_coding_agent_hoo.Cedar.Store.Laws.{
  Quiet, Quiet-refl, Quiet-then, Quiet-get, along, along_attempt,
}
use sondera_coding_agent_hoo.Cedar.Request.{Request}
use sondera_coding_agent_hoo.Cedar.Request.Laws.{Quiet-build_request}
use sondera_coding_agent_hoo.Cedar.Request.Build.{build_request}
use sondera_coding_agent_hoo.Cedar.Harness.{
  Harness, is_authorized, judge, evaluate, stored_form, verdict_event, finish, after_evaluation,
}

-- Each event that a ledger gained has the property `P`.
pub record Gains (P : Event → Type 0) (db db' : Db) : Type 0 where
  pub events : (x : Event) → Has x db'.events → Has x db.events ⊎ P x
  pub file : (x : Event) → Has x db'.file → Has x db.file ⊎ P x

-- The payload is no lifecycle record.
abbrev pub IsJudged : TrajectoryEvent → Type 0
IsJudged (control c) = ⊥
IsJudged _ = Unit

module _ (P : Event → Type 0) where
  pub Gains-trans : (a b c : Db) → Gains P a b → Gains P b c → Gains P a c
  Gains-trans a b c h k = record {
    events = λ x m. elim (k.events x m) [ inl n ↦ h.events x n | inr p ↦ inr p ];
    file = λ x m. elim (k.file x m) [ inl n ↦ h.file x n | inr p ↦ inr p ];
  }

  pub Gains-Quiet : (a b : Db) → Quiet a b → Gains P a b
  Gains-Quiet a b q = record {
    events = λ x m. inl (subst (λ l. Has x l) q.events m);
    file = λ x m. inl (subst (λ l. Has x l) q.file m);
  }

  Has-last : (xs : List Event) (e x : Event) → P e → Has x (xs ++ e ∷ []) → Has x xs ⊎ P x
  Has-last [] e x p (inl h) = inr (subst P (sym h) p)
  Has-last [] e x p (inr h) = elim h [ ]
  Has-last (y ∷ xs) e x p (inl h) = inl (inl h)
  Has-last (y ∷ xs) e x p (inr h) = elim (Has-last xs e x p h) [
    | inl m ↦ inl (inr m)
    | inr q ↦ inr q
  ]

  module _ (faults : Faults) where
    Gains-persist : (e : Event) (db : Db) → P e → Gains P db (persist faults e db).1
    unfolding persist
    Gains-persist e db p =
        along (Gains P) Gains-trans db (attempt faults append_file db tt _) _
          (along_attempt faults (Gains P) append_file db tt _ (Gains-Quiet db db (Quiet-refl db))
            (record { events = λ x m. inl m; file = λ x m. Has-last db.file e x p m }))
          (λ _ db1.
            along_attempt faults (Gains P) insert_event db1 tt _
              (Gains-Quiet db1 db1 (Quiet-refl db1))
              (record { events = λ x m. Has-last db1.events e x p m; file = λ x m. inl m }))

module _ (h : Harness) (faults : Faults) where
  Quiet-judge : (request : Request) (db : Db) → Quiet db (judge h faults request db).1
  unfolding judge is_authorized
  Quiet-judge request db = elim (Option-cases (h.invalid request)) [
    | inr (x, e) ↦ rw (e, judge) (Quiet-refl db)
    | inl e ↦
        rw (e, judge)
          (Quiet-then db (is_authorized h faults request db) _
            (Quiet-then db (attempt faults all_entities db db.entities db) _
              (along_attempt faults Quiet all_entities db _ db (Quiet-refl db) (Quiet-refl db))
              (λ _ db1. Quiet-refl db1))
            (λ _ db1. Quiet-refl db1))
  ]

  pub Quiet-evaluate : (event : Event) (db : Db) → Quiet db (evaluate h faults event db).1
  unfolding evaluate
  Quiet-evaluate event db =
      Quiet-then db (build_request h.outside faults event db) _
        (Quiet-build_request h.outside faults event db) (λ request db1. Quiet-judge request db1)

  -- What an adjudication may write: the stored form of the event, and the record of its verdict.
  abbrev pub Written : Fresh → Event → Result Adjudicated → Event → Type 0
  Written fresh event outcome x =
      (x ≡ stored_form h faults outcome event)
      ⊎ ((a : Adjudicated) × ((outcome ≡ ok a)
            × (x ≡ verdict_event h faults fresh (stored_form h faults outcome event) a)))

  Gains-finish :
      (fresh : Fresh) (event : Event) (outcome : Result Adjudicated) (persisted : Outcome Unit)
      → Gains
          (Written fresh event outcome)
          persisted.1
          (finish h faults fresh (stored_form h faults outcome event) outcome persisted).1
  unfolding finish
  Gains-finish fresh event (err e) (r, db) = Gains-Quiet _ db db (Quiet-refl db)
  Gains-finish fresh event (ok a) (err e, db) = Gains-Quiet _ db db (Quiet-refl db)
  Gains-finish fresh event (ok a) (ok u, db) =
      let P = Written fresh event (ok a) in
      along (Gains P) (Gains-trans P) db (get faults (euid (codes "Trajectory") _) db) _
        (Gains-Quiet P db _ (Quiet-get faults _ db))
        (λ _ db1.
          along (Gains P) (Gains-trans P) db1 (persist faults _ db1) _
            (Gains-persist P faults _ db1 (inr (a, (refl, refl))))
            (λ _ db2. Gains-Quiet P db2 db2 (Quiet-refl db2)))

  pub Gains-after_evaluation :
      (fresh : Fresh) (event : Event) (o : Outcome Adjudicated)
      → Gains (Written fresh event o.0) o.1 (after_evaluation h faults fresh event o).1
  unfolding after_evaluation
  Gains-after_evaluation fresh event o =
      Gains-trans (Written fresh event o.0) o.1
        (persist faults (stored_form h faults o.0 event) o.1).1 _
        (Gains-persist (Written fresh event o.0) faults _ o.1 (inl refl))
        (Gains-finish fresh event o.0 (persist faults (stored_form h faults o.0 event) o.1))
