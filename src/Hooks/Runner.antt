-- ===== src/Hooks/Runner.antt =====
-- The run loop of a hook: crates/hooks/core/src/runner.rs. A future is what it comes to and when,
-- in milliseconds; it may also never come to anything. `timeout_at` of tokio lets a future that is
-- ready by the deadline finish.
pub mod Laws
use sondera_coding_agent_hoo.Prelude.{
  ℕ, ◌+◌, ◌-◌, ◌*◌, ◌^◌, min, max, Bool, Option, none, some, List, [], ◌∷◌, if◌then◌else◌, ltb, leb,
  ◌==◌,
}
use sondera_coding_agent_hoo.Prelude.Text.{Text, codes, is_ascii_digit}
use sondera_coding_agent_hoo.Types.Json.{Json}
use sondera_coding_agent_hoo.Hooks.Error.{HookError, budget_exceeded, panicked, plain}

abbrev pub default_hook_budget : ℕ
default_hook_budget = 30

abbrev pub max_hook_budget : ℕ
max_hook_budget = 300

-- `u64::from_str` behind an optional plus sign: at least one digit, and no overflow.
digits_from : ℕ → Text → Option ℕ
digits_from n [] = some n
digits_from n (c ∷ s) =
    let m = n * 10 + (c - b'0') in
    let rest = digits_from m s in
    if is_ascii_digit c then (if ltb m (2 ^ 64) then rest else none) else none

all_digits : Text → Option ℕ
unfolding digits_from
all_digits [] = none
all_digits (c ∷ s) = digits_from 0 (c ∷ s)

unfoldable pub parse_u64 : Text → Option ℕ
unfolding all_digits
parse_u64 [] = none
parse_u64 (c ∷ s) = if c == b'+' then all_digits s else all_digits (c ∷ s)

positive : Option ℕ → Option ℕ
positive none = none
positive (some n) = if ltb 0 n then some n else none

-- `parse_hook_budget`, in seconds. `trim` is that of `str`.
unfoldable pub parse_hook_budget : (Text → Text) → Option Text → ℕ
unfolding parse_u64 positive
parse_hook_budget trim none = min default_hook_budget max_hook_budget
parse_hook_budget trim (some raw) = elim (positive (parse_u64 (trim raw))) [
  | none ↦ min default_hook_budget max_hook_budget
  | some secs ↦ min secs max_hook_budget
]

-- What a future comes to: a value or a panic.
pub data Settled (A : Type 0) : Type 0 where
  returned : A → Settled A
  unwound : Settled A

-- A future with the time it takes; `none` where it hangs.
pub record Timed (A : Type 0) : Type 0 where
  pub takes : Option ℕ
  pub comes_to : Settled A

pub data Result (A : Type 0) : Type 0 where
  ok : A → Result A
  err : HookError → Result A

-- `timeout_at(deadline, future)` for a future polled first at `now`: its value with the time, or
-- the deadline.
unfoldable pub timeout_at : {A : Type 0} → ℕ → ℕ → Timed A → Option (Settled A) × ℕ
timeout_at deadline now f = elim f.takes [
  | none ↦ (none, max deadline now)
  | some d ↦ if leb (now + d) deadline then (some f.comes_to, now + d) else (none, max deadline now)
]

-- `read_event_within`; the reader is the blocking read of stdin with its parse.
unfoldable pub read_event : ℕ → Option (Settled (Result Json)) → Result Json
read_event budget none = err (budget_exceeded budget)
read_event budget (some unwound) = err panicked
read_event budget (some (returned (err e))) =
    err (plain (codes "stdin could not be read or parsed as JSON"))
read_event budget (some (returned (ok value))) = ok value

unfoldable pub both_take : Option ℕ → Option ℕ → Option ℕ
both_take (some a) (some b) = some (a + b)
both_take _ _ = none

unfoldable pub awaited :
    {H R : Type 0} → Option ℕ → Settled (Result H) → (H → Timed (Result R)) → Timed (Result R)
unfolding both_take
awaited takes unwound next = record { takes = takes; comes_to = unwound }
awaited takes (returned (err e)) next = record { takes = takes; comes_to = returned (err e) }
awaited takes (returned (ok h)) next = record {
  takes = both_take takes (next h).takes;
  comes_to = (next h).comes_to;
}

-- A future that awaits another first, and ends where `?` meets an error.
unfoldable pub and_await :
    {H R : Type 0} → Timed (Result H) → (H → Timed (Result R)) → Timed (Result R)
unfolding awaited
and_await f next = awaited f.takes f.comes_to next

module _ {R : Type 0} (degraded : HookError → R) where
  -- The `match` of `resolve_event`.
  unfoldable pub resolve_outcome : ℕ → Option (Settled (Result R)) → R
  resolve_outcome budget none = degraded (budget_exceeded budget)
  resolve_outcome budget (some unwound) = degraded panicked
  resolve_outcome budget (some (returned (err e))) = degraded e
  resolve_outcome budget (some (returned (ok response))) = response

  -- `resolve_event`: the response, and when it is there.
  unfoldable pub resolve_event :
      {H : Type 0} → ℕ → ℕ → ℕ → Json → Timed (Result H) → (H → Json → Timed (Result R)) → R × ℕ
  unfolding timeout_at resolve_outcome and_await
  resolve_event budget deadline now value connect dispatch =
      let o = timeout_at deadline now (and_await connect (λ h. dispatch h value)) in
      (resolve_outcome budget o.0, o.1)

  unfoldable pub after_read :
      {H : Type 0}
      → ℕ
      → ℕ
      → Timed (Result H)
      → (H → Json → Timed (Result R))
      → Result Json
      → ℕ
      → R × ℕ
  unfolding resolve_event
  after_read budget deadline connect dispatch (err e) now = (degraded e, now)
  after_read budget deadline connect dispatch (ok value) now =
      resolve_event budget deadline now value connect dispatch

  -- `resolve_hook` for a hook that starts at `now`.
  unfoldable pub resolve_hook :
      {H : Type 0}
      → ℕ
      → ℕ
      → Timed (Result Json)
      → Timed (Result H)
      → (H → Json → Timed (Result R))
      → R × ℕ
  unfolding after_read timeout_at read_event
  resolve_hook budget now reader connect dispatch =
      let deadline = now + budget * 1000 in
      let o = timeout_at deadline now reader in
      after_read budget deadline connect dispatch (read_event budget o.0) o.1
