-- ===== src/Scans/Run/Starts.antt =====
-- Which scans an event starts: `dispatch` of crates/harness/src/scan.rs against a list.
use sondera_coding_agent_hoo.Prelude.{
  ℕ, zero, suc, ◌-◌, List, [], ◌∷◌, ◌++◌, length, if◌then◌else◌, ◌≡◌, refl, sym, ◌∙◌, ap, inl, inr,
  Bool-cases, arith,
}
use sondera_coding_agent_hoo.Types.Page.{take}
use sondera_coding_agent_hoo.Types.Event.{Event}
use sondera_coding_agent_hoo.Scans.Scanner.{
  should_scan_transcript, should_digest_interim, is_scanner_output,
}
use sondera_coding_agent_hoo.Scans.Task.{Task, scan_one, load_final, load_interim}
use sondera_coding_agent_hoo.Scans.Dispatch.{
  World, spawn_with, spawn_scan, dispatch_transcript, dispatch,
}

-- The scans that an event warrants: none for a scan's own record; else the transcript scan of a
-- terminal event, or the interim digest of a Codex turn, and last the scan of the event.
abbrev pub wanted : Event → List Task
wanted e =
    if is_scanner_output e
    then []
    else if should_scan_transcript e
    then load_final e ∷ scan_one e ∷ []
    else if should_digest_interim e
    then load_interim e ∷ scan_one e ∷ []
    else scan_one e ∷ []

abbrev spawn_all : List Task → World → World
spawn_all [] w = w
spawn_all (t ∷ ts) w = spawn_all ts (spawn_scan t w)

dispatch-spawn_all : (e : Event) (w : World) → dispatch e w ≡ spawn_all (wanted e) w
unfolding dispatch dispatch_transcript
dispatch-spawn_all e w = elim (Bool-cases (is_scanner_output e)) [
  | inl a ↦ rw a refl
  | inr a ↦ rw a (elim (Bool-cases (should_scan_transcript e)) [
    | inl b ↦ rw b refl
    | inr b ↦
        rw b (elim (Bool-cases (should_digest_interim e)) [ inl c ↦ rw c refl | inr c ↦ rw c refl ])
  ])
]

-- What a dispatch leaves: the scans for which there were permits, in their order.
pub record Started (ts : List Task) (w w' : World) : Type 0 where
  pub tasks : w'.tasks ≡ w.tasks ++ take ts w.free
  pub free : w'.free ≡ w.free - length ts
  pub store : w'.store ≡ w.store

append_assoc : (xs ys zs : List Task) → (xs ++ ys) ++ zs ≡ xs ++ (ys ++ zs)
append_assoc [] ys zs = refl
append_assoc (x ∷ xs) ys zs = ap (λ r. x ∷ r) (append_assoc xs ys zs)

append_nil : (xs : List Task) → xs ++ [] ≡ xs
append_nil [] = refl
append_nil (x ∷ xs) = ap (λ r. x ∷ r) (append_nil xs)

spawn_all-Started : (ts : List Task) (w : World) → Started ts w (spawn_all ts w)
unfolding spawn_scan spawn_with take
spawn_all-Started [] w = record { tasks = sym (nothing w.free); free = omega arith; store = refl }
  where
    nothing : (n : ℕ) → w.tasks ++ take [] n ≡ w.tasks
    nothing zero = append_nil w.tasks
    nothing (suc n) = append_nil w.tasks
spawn_all-Started (t ∷ ts) w = by_free w.free refl (λ v. spawn_all-Started ts v)
  where
    by_free :
        (n : ℕ)
        → w.free ≡ n
        → ((v : World) → Started ts v (spawn_all ts v))
        → Started (t ∷ ts) w (spawn_all ts (spawn_with n t w))
    by_free zero e started =
        let h = started w in
        record {
          tasks = h.tasks ∙ rw e (ap (λ r. w.tasks ++ r) (none_taken ts));
          free = omega (arith, h.free, e);
          store = h.store;
        }
      where
        none_taken : (xs : List Task) → take xs 0 ≡ []
        none_taken [] = refl
        none_taken (x ∷ xs) = refl
    by_free (suc n) e started =
        let h = started (record w { free = n; tasks = w.tasks ++ t ∷ [] }) in
        record {
          tasks = h.tasks ∙ append_assoc w.tasks (t ∷ []) (take ts n) ∙ rw e refl;
          free = omega (arith, h.free, e);
          store = h.store;
        }

-- A dispatch starts exactly the scans that its event warrants, in order, as far as there are free
-- permits: what finds no permit is dropped, never queued, each started scan takes one permit, and
-- the store is not touched.
pub dispatch-Started : (e : Event) (w : World) → Started (wanted e) w (dispatch e w)
dispatch-Started e w = rw (dispatch-spawn_all e w) (spawn_all-Started (wanted e) w)
