-- ===== src/Cedar/Store/Reader.antt =====
-- How readers get the events of a trajectory out of the ledger: `events` of
-- crates/storage/src/turso/mod.rs, with its `ORDER BY timestamp ASC, id ASC`. The list of the
-- ledger is in the order of insertion, which is the order of the column `id`.
use sondera_coding_agent_hoo.Prelude.{
  ℕ, ◌≤◌, List, [], ◌∷◌, ◌++◌, if◌then◌else◌, ltb, ◌≡◌, refl, ap, ◌∙◌, arith, Bool-cases, inl, inr,
}
use sondera_coding_agent_hoo.Prelude.Text.{Text, text_eq, text_eq_refl}
use sondera_coding_agent_hoo.Types.Event.{Event}

-- `WHERE trajectory_id = ?1`.
unfoldable pub of_trajectory : Text → List Event → List Event
of_trajectory id [] = []
of_trajectory id (e ∷ es) =
    let rest = of_trajectory id es in if text_eq e.trajectory_id id then e ∷ rest else rest

-- A row goes behind those of the same time, which were inserted before it.
unfoldable pub place : Event → List Event → List Event
place e [] = e ∷ []
place e (x ∷ xs) =
    let rest = place e xs in if ltb e.timestamp x.timestamp then e ∷ x ∷ xs else x ∷ rest

unfoldable pub place_all : List Event → List Event → List Event
unfolding place
place_all run [] = run
place_all run (e ∷ es) = place_all (place e run) es

unfoldable pub trajectory_events : Text → List Event → List Event
unfolding of_trajectory place_all
trajectory_events id rows = place_all [] (of_trajectory id rows)

-- No event of the list is later than `t`.
abbrev pub UpTo : ℕ → List Event → Type 0
UpTo t [] = Unit
UpTo t (e ∷ es) = (e.timestamp ≤ t) × UpTo t es

of_trajectory-both :
    (id : Text) (es : List Event) (a b : Event)
    → a.trajectory_id ≡ id
    → b.trajectory_id ≡ id
    → of_trajectory id (es ++ a ∷ b ∷ []) ≡ of_trajectory id es ++ a ∷ b ∷ []
unfolding of_trajectory
of_trajectory-both id [] a b p q = rw p (rw q (rw (text_eq_refl id) refl))
of_trajectory-both id (e ∷ es) a b p q = elim (Bool-cases (text_eq e.trajectory_id id)) [
  | inl h ↦ rw h (ap (λ r. e ∷ r) (of_trajectory-both id es a b p q))
  | inr h ↦ rw h (of_trajectory-both id es a b p q)
]

place_all-append :
    (run es fs : List Event) → place_all run (es ++ fs) ≡ place_all (place_all run es) fs
unfolding place_all
place_all-append run [] fs = refl
place_all-append run (e ∷ es) fs = place_all-append (place e run) es fs

place_last : (e : Event) (run : List Event) → UpTo e.timestamp run → place e run ≡ run ++ e ∷ []
unfolding place
place_last e [] u = refl
place_last e (x ∷ xs) u = elim (Bool-cases (ltb e.timestamp x.timestamp)) [
  | inl h ↦ ground (arith, h, u.0)
  | inr h ↦ rw h (ap (λ r. x ∷ r) (place_last e xs u.1))
]

place-UpTo :
    (t : ℕ) (e : Event) (run : List Event) → e.timestamp ≤ t → UpTo t run → UpTo t (place e run)
unfolding place
place-UpTo t e [] h u = (h, tt)
place-UpTo t e (x ∷ xs) h u = elim (Bool-cases (ltb e.timestamp x.timestamp)) [
  | inl k ↦ rw k (h, u)
  | inr k ↦ rw k (u.0, place-UpTo t e xs h u.1)
]

place_all-UpTo : (t : ℕ) (run es : List Event) → UpTo t run → UpTo t es → UpTo t (place_all run es)
unfolding place_all
place_all-UpTo t run [] u v = u
place_all-UpTo t run (e ∷ es) u v = place_all-UpTo t (place e run) es (place-UpTo t e run v.0 u) v.1

of_trajectory-UpTo :
    (t : ℕ) (id : Text) (es : List Event) → UpTo t es → UpTo t (of_trajectory id es)
unfolding of_trajectory
of_trajectory-UpTo t id [] u = tt
of_trajectory-UpTo t id (e ∷ es) u = elim (Bool-cases (text_eq e.trajectory_id id)) [
  | inl h ↦ rw h (u.0, of_trajectory-UpTo t id es u.1)
  | inr h ↦ rw h (of_trajectory-UpTo t id es u.1)
]

UpTo-last :
    (t : ℕ) (run : List Event) (e : Event) → UpTo t run → e.timestamp ≤ t → UpTo t (run ++ e ∷ [])
UpTo-last t [] e u h = (h, tt)
UpTo-last t (x ∷ xs) e u h = (u.0, UpTo-last t xs e u.1 h)

UpTo-later : (s t : ℕ) (run : List Event) → s ≤ t → UpTo s run → UpTo t run
UpTo-later s t [] h u = tt
UpTo-later s t (x ∷ xs) h u = (omega (arith, h, u.0), UpTo-later s t xs h u.1)

append_append : (xs : List Event) (a b : Event) → (xs ++ a ∷ []) ++ b ∷ [] ≡ xs ++ a ∷ b ∷ []
append_append [] a b = refl
append_append (x ∷ xs) a b = ap (λ r. x ∷ r) (append_append xs a b)

-- Two events of the trajectory that are inserted last, in the order of their times, are read last.
pub trajectory_events-both :
    (id : Text) (rows : List Event) (a b : Event)
    → a.trajectory_id ≡ id
    → b.trajectory_id ≡ id
    → UpTo a.timestamp (of_trajectory id rows)
    → a.timestamp ≤ b.timestamp
    → trajectory_events id (rows ++ a ∷ b ∷ []) ≡ trajectory_events id rows ++ a ∷ b ∷ []
unfolding trajectory_events place_all
trajectory_events-both id rows a b p q u h =
    let old = place_all [] (of_trajectory id rows) in
    let v = place_all-UpTo a.timestamp [] (of_trajectory id rows) tt u in
    ap (λ es. place_all [] es) (of_trajectory-both id rows a b p q)
    ∙ place_all-append [] (of_trajectory id rows) (a ∷ b ∷ [])
    ∙ ap (λ r. place b r) (place_last a old v)
    ∙ place_last b (old ++ a ∷ [])
        (UpTo-last b.timestamp old a (UpTo-later a.timestamp b.timestamp old h v) h)
    ∙ append_append old a b
