-- ===== src/Hooks/Runner/Laws.antt =====
-- A hook answers in time, and only an enforced answer is not the degraded one
-- (crates/hooks/core/src/runner.rs).
use sondera_coding_agent_hoo.Prelude.{
  ℕ, ◌+◌, ◌*◌, ◌≤◌, Option, none, some, leb, ◌≡◌, refl, ◌⊎◌, inl, inr, Bool-cases, Option-cases,
  arith,
}
use sondera_coding_agent_hoo.Prelude.Text.{Text}
use sondera_coding_agent_hoo.Types.Json.{Json}
use sondera_coding_agent_hoo.Hooks.Error.{HookError, budget_exceeded, panicked}
use sondera_coding_agent_hoo.Hooks.Runner.{
  Settled, Timed, Result, returned, unwound, ok, err, parse_u64, positive, parse_hook_budget,
  timeout_at, read_event, awaited, and_await, resolve_outcome, resolve_event, after_read,
  resolve_hook,
}

positive_le : (o : Option ℕ) (n : ℕ) → positive o ≡ some n → 1 ≤ n
unfolding positive
positive_le none n h = ground arith
positive_le (some m) n h = ground arith

-- Whatever the environment holds, the budget of a hook is at least one second and at most 300.
pub parse_hook_budget-bounds :
    (trim : Text → Text) (raw : Option Text)
    → (1 ≤ parse_hook_budget trim raw) × (parse_hook_budget trim raw ≤ 300)
unfolding parse_hook_budget
parse_hook_budget-bounds trim none = (omega arith, omega arith)
parse_hook_budget-bounds trim (some raw) = elim (Option-cases (positive (parse_u64 (trim raw)))) [
  | inl e ↦ rw (e, parse_hook_budget) (omega arith, omega arith)
  | inr (n, e) ↦
      let h = positive_le (parse_u64 (trim raw)) n e in
      rw (e, parse_hook_budget) (omega (arith, h), omega arith)
]

timeout_at_bound :
    {A : Type 0} (deadline now : ℕ) (f : Timed A)
    → now ≤ deadline
    → (timeout_at deadline now f).1 ≤ deadline
unfolding timeout_at
timeout_at_bound deadline now f h = elim (Option-cases f.takes) [
  | inl e ↦ rw e (omega (arith, h))
  | inr (d, e) ↦ rw e (elim (Bool-cases (leb (now + d) deadline)) [
    | inl k ↦ rw k (ground (arith, k))
    | inr k ↦ rw k (omega (arith, h))
  ])
]

-- What finishes in time is what the future comes to.
pub timeout_at_value :
    {A : Type 0} (deadline now : ℕ) (f : Timed A) (x : Settled A)
    → (timeout_at deadline now f).0 ≡ some x
    → f.comes_to ≡ x
unfolding timeout_at
timeout_at_value deadline now f x = elim (Option-cases f.takes) [
  | inl e ↦ rw e (λ h. cc)
  | inr (d, e) ↦ rw e (elim (Bool-cases (leb (now + d) deadline)) [
    | inl k ↦ rw k (λ h. cc)
    | inr k ↦ rw k (λ h. cc)
  ])
]

-- The response of the handler: the event was read, the harness was connected and the handler
-- returned this.
pub record Enforced {H R : Type 0} (reader : Timed (Result Json)) (connect : Timed (Result H))
    (dispatch : H → Json → Timed (Result R)) (r : R) : Type 0 where
  pub value : Json
  pub handler : H
  pub was_read : reader.comes_to ≡ returned (ok value)
  pub connected : connect.comes_to ≡ returned (ok handler)
  pub handled : (dispatch handler value).comes_to ≡ returned (ok r)

clash : {R : Type 0} {a : R} → unwound ≡ returned (ok a) → ⊥
clash k = cc

no_value : {A : Type 0} {e : HookError} {a : A} → returned (err e) ≡ returned (ok a) → ⊥
no_value k = cc

pub read_event_ok :
    (budget : ℕ) (o : Option (Settled (Result Json))) (value : Json)
    → read_event budget o ≡ ok value
    → o ≡ some (returned (ok value))
unfolding read_event
read_event_ok budget none value h = cc
read_event_ok budget (some unwound) value h = cc
read_event_ok budget (some (returned (err e))) value h = cc
read_event_ok budget (some (returned (ok v))) value h = cc

module _ {H R : Type 0} where
  awaited_ok :
      (takes : Option ℕ) (x : Settled (Result H)) (next : H → Timed (Result R)) (r : R)
      → (awaited takes x next).comes_to ≡ returned (ok r)
      → (h : H) × ((x ≡ returned (ok h)) × ((next h).comes_to ≡ returned (ok r)))
  unfolding awaited
  awaited_ok takes unwound next r k = absurd (clash k)
  awaited_ok takes (returned (err e)) next r k = absurd (no_value k)
  awaited_ok takes (returned (ok h)) next r k = (h, (refl, k))

  module _ (degraded : HookError → R) (reader : Timed (Result Json)) (connect : Timed (Result H))
      (dispatch : H → Json → Timed (Result R)) where
    -- Each response is the degraded one for some error, or the handler's.
    abbrev Answer : R → Type 0
    Answer r = ((e : HookError) × (r ≡ degraded e)) ⊎ Enforced reader connect dispatch r

    outcome_Answer :
        (budget : ℕ) (value : Json) (o : Option (Settled (Result R)))
        → reader.comes_to ≡ returned (ok value)
        → ((x : Settled (Result R))
            → o ≡ some x
            → (and_await connect (λ h. dispatch h value)).comes_to ≡ x)
        → Answer (resolve_outcome degraded budget o)
    unfolding resolve_outcome and_await
    outcome_Answer budget value none was_read h = inl (budget_exceeded budget, refl)
    outcome_Answer budget value (some unwound) was_read h = inl (panicked, refl)
    outcome_Answer budget value (some (returned (err e))) was_read h = inl (e, refl)
    outcome_Answer budget value (some (returned (ok r))) was_read h =
        let (handler, (c, d)) =
          awaited_ok connect.takes connect.comes_to (λ x. dispatch x value) r
            (h (returned (ok r)) refl) in
        inr (record {
          value = value;
          handler = handler;
          was_read = was_read;
          connected = c;
          handled = d;
        })

    after_read-Answer :
        (budget deadline now : ℕ) (x : Result Json)
        → ((value : Json) → x ≡ ok value → reader.comes_to ≡ returned (ok value))
        → now ≤ deadline
        → ((after_read degraded budget deadline connect dispatch x now).1 ≤ deadline)
          × Answer (after_read degraded budget deadline connect dispatch x now).0
    unfolding after_read resolve_event
    after_read-Answer budget deadline now (err e) h le = (le, inl (e, refl))
    after_read-Answer budget deadline now (ok value) h le =
        let f = and_await connect (λ x. dispatch x value) in
        (
          timeout_at_bound deadline now f le,
          outcome_Answer budget value (timeout_at deadline now f).0 (h value refl)
              (λ x k. timeout_at_value deadline now f x k),
        )

-- A hook always answers, and in time: whether the event can be read, whether the connection or the
-- handler fails, panics or hangs, `resolve_hook` has a response within its budget, and this is the
-- degraded response for some error unless the event was read, the harness was connected and the
-- handler returned the response.
pub resolve_hook-answers :
    {H R : Type 0} (degraded : HookError → R) (budget now : ℕ) (reader : Timed (Result Json))
    (connect : Timed (Result H)) (dispatch : H → Json → Timed (Result R))
    → ((resolve_hook degraded budget now reader connect dispatch).1 ≤ now + budget * 1000)
      × (((e : HookError) × ((resolve_hook degraded budget now reader connect dispatch).0
              ≡ degraded e))
          ⊎ Enforced reader connect dispatch
              (resolve_hook degraded budget now reader connect dispatch).0)
unfolding resolve_hook
resolve_hook-answers degraded budget now reader connect dispatch =
    let deadline = now + budget * 1000 in
    let o = timeout_at deadline now reader in
    after_read-Answer degraded reader connect dispatch budget deadline o.1 (read_event budget o.0)
      (λ value h.
        timeout_at_value deadline now reader (returned (ok value))
          (read_event_ok budget o.0 value h))
      (timeout_at_bound deadline now reader (omega arith))
