-- ===== src/Hooks/Claude/Run/Gate.antt =====
-- What lets a tool call pass (crates/hooks/claude/src/lib.rs, crates/hooks/claude/src/hooks.rs).
use sondera_coding_agent_hoo.Prelude.{
  ℕ, ◌+◌, ◌*◌, true, Option, none, some, Has, ◌≡◌, refl, ◌⊎◌, inl, inr,
}
use sondera_coding_agent_hoo.Types.Json.{Json}
use sondera_coding_agent_hoo.Types.Policy.{Decision}
use sondera_coding_agent_hoo.Types.Control.{Adjudicated}
use sondera_coding_agent_hoo.Types.Event.{Event, Fresh}
use sondera_coding_agent_hoo.Hooks.Error.{HookError, budget_exceeded, panicked, from_client}
use sondera_coding_agent_hoo.Hooks.Runner.{
  Settled, returned, unwound, Timed, Result, ok, err, timeout_at, read_event,
}
use sondera_coding_agent_hoo.Hooks.Runner.Laws.{timeout_at_value, read_event_ok}
use sondera_coding_agent_hoo.Hooks.Claude.Response.{HookResponse, allow_response}
use sondera_coding_agent_hoo.Hooks.Claude.FailClosed.Laws.{
  guarding, Answers, fail_closed_response-FailsClosed,
}
use sondera_coding_agent_hoo.Hooks.Claude.Handlers.{
  judged, Hooks, Handled, pre_tool_response, permission_response, pre_tool_event, permission_event,
  post_tool_event, handle_pre_tool_use, handle_permission_request, handle_post_tool_use,
}
use sondera_coding_agent_hoo.Hooks.Claude.Handlers.Guards.{
  holds_back, ok_injective, err_ok, pre_tool_response-Guards, permission_response-Guards, Answered,
  on_reply-Answered, on_post_reply-Answered,
}
use sondera_coding_agent_hoo.Hooks.Claude.Run.{
  Command, Decoders, Connected, reached, unreached, hook_event_name, or_fallback,
  degraded_hook_response, decoded, settled, outcome_response, dispatch_hook, served, handled_within,
  respond_after_read, run_hook,
}
use sondera_coding_agent_hoo.Hooks.Claude.Run.Sent.{
  ToolHook, pre, permission, post, command_of, decoded_event, sent_event,
}

guarding_tool : (t : ToolHook) → Has (hook_event_name (command_of t)) guarding
unfolding hook_event_name
guarding_tool pre = inl refl
guarding_tool permission = inr (inl refl)
guarding_tool post = inr (inr (inl refl))

unwound_returned : {A : Type 0} {a : A} → unwound ≡ returned a → ⊥
unwound_returned k = cc

returned_injective : {A : Type 0} {a b : A} → returned a ≡ returned b → a ≡ b
returned_injective k = cc

settled_returned :
    (x : Settled (Unit {0})) (r r' : Result HookResponse) → settled x r ≡ returned r' → r ≡ r'
unfolding settled
settled_returned (returned u) r r' k = returned_injective k
settled_returned unwound r r' k = absurd (unwound_returned k)

or_fallback-holds_back :
    (c : Command) (e : HookError) (o : Option HookResponse)
    → Answers o true
    → holds_back (or_fallback c e o) ≡ true
unfolding or_fallback
or_fallback-holds_back c e o (r, (k, b)) = rw k (rw b refl)

degraded-holds_back :
    (t : ToolHook) (e : HookError) (input : Option Json)
    → holds_back (degraded_hook_response (command_of t) e input) ≡ true
unfolding degraded_hook_response
degraded-holds_back t e input = or_fallback-holds_back (command_of t) e _ (
    (fail_closed_response-FailsClosed input e).guards (hook_event_name (command_of t))
      (guarding_tool t))

-- What stands behind a tool call that is not held back: its event was read and decoded, the harness
-- was reached and allowed the event that the handler sends for it.
pub record Passed {S : Type 0} (decode : Decoders) (fresh : Fresh) (t : ToolHook)
    (reader : Timed (Result Json)) (connect : Timed (Connected S)) (s : S) : Type 0 where
  pub raw : Json
  pub hooks : Hooks S
  pub event : Event
  pub verdict : Adjudicated
  pub was_read : reader.comes_to ≡ returned (ok raw)
  pub connected : connect.comes_to ≡ returned (reached hooks)
  pub sent : sent_event decode hooks fresh t raw ≡ ok event
  pub answered : (hooks.adjudicate event s).0 ≡ judged verdict
  pub allowed : verdict.decision ≡ Decision.allow

module _ {S : Type 0} (decode : Decoders) (others : Command → Hooks S → Json → S → Handled S)
    (fresh : Fresh) (s : S) where
  -- What the client says to the event that the handler sends.
  record Asked (h : Hooks S) (t : ToolHook) (raw : Json) : Type 0 where
    event : Event
    verdict : Adjudicated
    sent : sent_event decode h fresh t raw ≡ ok event
    answered : (h.adjudicate event s).0 ≡ judged verdict
    allowed : verdict.decision ≡ Decision.allow

  abbrev Handles : Hooks S → ToolHook → Json → Result HookResponse → Type 0
  Handles h t raw res =
      (r : HookResponse)
      → res ≡ ok r
      → (holds_back r ≡ true) ⊎ (Asked h t raw × (r ≡ allow_response))

  asked :
      (h : Hooks S) (t : ToolHook) (raw : Json) (e : Event) (res : Result HookResponse)
      → sent_event decode h fresh t raw ≡ ok e
      → Answered (h.adjudicate e s).0 res
      → Handles h t raw res
  asked h t raw e res k g r m = elim (g r m) [
    | inl n ↦ inl n
    | inr ((a, (p, d)), q) ↦
        inr (record { event = e; verdict = a; sent = k; answered = p; allowed = d }, q)
  ]

  decoded-Handles :
      {A : Type 0} (x : Result A) (h : Hooks S) (t : ToolHook) (raw : Json) (event : A → Event)
      (handle : A → S → Handled S)
      → sent_event decode h fresh t raw ≡ decoded_event x event
      → ((e : A) → Answered (h.adjudicate (event e) s).0 (handle e s).0)
      → Handles h t raw (decoded x handle s).0
  unfolding decoded
  decoded-Handles (ok e) h t raw event handle k g = asked h t raw (event e) (handle e s).0 k (g e)
  decoded-Handles (err x) h t raw event handle k g = λ r m. absurd (err_ok m)

  dispatch_hook-Handles :
      (h : Hooks S) (t : ToolHook) (raw : Json)
      → Handles h t raw (dispatch_hook decode others fresh (command_of t) h raw s).0
  unfolding dispatch_hook handle_pre_tool_use handle_permission_request handle_post_tool_use
  dispatch_hook-Handles h pre raw =
      decoded-Handles (decode.pre_tool_use raw) h pre raw (pre_tool_event h fresh)
        (handle_pre_tool_use h fresh) refl
        (λ e.
          on_reply-Answered (pre_tool_response e.tool_name) (pre_tool_response-Guards e.tool_name)
            (h.adjudicate (pre_tool_event h fresh e) s))
  dispatch_hook-Handles h permission raw =
      decoded-Handles (decode.permission_request raw) h permission raw (permission_event h fresh)
        (handle_permission_request h fresh) refl
        (λ e.
          on_reply-Answered (permission_response e.tool_name)
            (permission_response-Guards e.tool_name) (h.adjudicate (permission_event h fresh e) s))
  dispatch_hook-Handles h post raw =
      decoded-Handles (decode.post_tool_use raw) h post raw (post_tool_event h fresh)
        (handle_post_tool_use h fresh) refl
        (λ e. on_post_reply-Answered e.tool_response (h.adjudicate (post_tool_event h fresh e) s))

  -- The same of the future, with the harness that was reached.
  handled_within-Handles :
      (x : Settled (Connected S)) (takes : Option ℕ) (works : Connected S → Timed (Unit {0}))
      (t : ToolHook) (raw : Json) (r : HookResponse)
      → (handled_within decode others fresh (command_of t) raw s takes x works).comes_to
        ≡ returned (ok r)
      → (holds_back r ≡ true)
        ⊎ ((h : Hooks S) × ((x ≡ returned (reached h)) × (Asked h t raw × (r ≡ allow_response))))
  unfolding handled_within served
  handled_within-Handles unwound takes works t raw r k = absurd (unwound_returned k)
  handled_within-Handles (returned (unreached e)) takes works t raw r k = inl (
      rw (← ok_injective (settled_returned (works (unreached e)).comes_to _ _ k))
        (degraded-holds_back t (from_client e) (some raw)))
  handled_within-Handles (returned (reached h)) takes works t raw r k =
      elim (dispatch_hook-Handles h t raw r (settled_returned (works (reached h)).comes_to _ _ k)) [
        | inl n ↦ inl n
        | inr a ↦ inr (h, (refl, a))
      ]

  module _ (reader : Timed (Result Json)) (connect : Timed (Connected S))
      (works : Connected S → Timed (Unit {0})) (t : ToolHook) (budget : ℕ) where
    abbrev Gated : HookResponse → Type 0
    Gated r =
        (holds_back r ≡ true) ⊎ (Passed decode fresh t reader connect s × (r ≡ allow_response))

    outcome_response-Gated :
        (raw : Json) (o : Option (Settled (Result HookResponse)))
        → reader.comes_to ≡ returned (ok raw)
        → ((x : Settled (Result HookResponse))
            → o ≡ some x
            → (handled_within decode others fresh
                (command_of t)
                raw
                s
                connect.takes
                connect.comes_to
                works).comes_to
              ≡ x)
        → Gated (outcome_response (command_of t) budget raw o)
    unfolding outcome_response
    outcome_response-Gated raw none e h =
        inl (degraded-holds_back t (budget_exceeded budget) (some raw))
    outcome_response-Gated raw (some unwound) e h = inl (degraded-holds_back t panicked (some raw))
    outcome_response-Gated raw (some (returned (err x))) e h =
        inl (degraded-holds_back t x (some raw))
    outcome_response-Gated raw (some (returned (ok r))) e h =
        elim (handled_within-Handles connect.comes_to connect.takes works t raw r (h _ refl)) [
          | inl n ↦ inl n
          | inr (hooks, (c, (a, q))) ↦ inr (
            record {
              raw = raw;
              hooks = hooks;
              event = a.event;
              verdict = a.verdict;
              was_read = e;
              connected = c;
              sent = a.sent;
              answered = a.answered;
              allowed = a.allowed;
            },
            q,
          )
        ]

    respond_after_read-Gated :
        (x : Result Json) (deadline now : ℕ)
        → ((raw : Json) → x ≡ ok raw → reader.comes_to ≡ returned (ok raw))
        → Gated (
            respond_after_read decode others fresh
              (command_of t)
              budget
              deadline
              connect
              works
              s
              x
              now)
    unfolding respond_after_read
    respond_after_read-Gated (err e) deadline now h = inl (degraded-holds_back t e none)
    respond_after_read-Gated (ok raw) deadline now h =
        let f =
          handled_within decode others fresh (command_of t) raw s connect.takes connect.comes_to
            works in
        outcome_response-Gated raw (timeout_at deadline now f).0 (h raw refl)
          (λ x k. timeout_at_value deadline now f x k)

-- No tool call passes unjudged: the answer to a tool call, a permission request or a tool's output
-- blocks it or asks the user, unless the event was read and decoded, the harness was reached, and
-- it answered Allow to the event that the handler sends. The response then is the empty one, which
-- leaves the agent's own permissions in force. This holds whatever fails, panics or takes too long.
pub run_hook-Passed :
    {S : Type 0} (decode : Decoders) (others : Command → Hooks S → Json → S → Handled S)
    (fresh : Fresh) (t : ToolHook) (budget now : ℕ) (reader : Timed (Result Json))
    (connect : Timed (Connected S)) (works : Connected S → Timed (Unit {0})) (s : S)
    → (holds_back (run_hook decode others fresh (command_of t) budget now reader connect works s)
        ≡ true)
      ⊎ (Passed decode fresh t reader connect s
          × (run_hook decode others fresh (command_of t) budget now reader connect works s
              ≡ allow_response))
unfolding run_hook
run_hook-Passed decode others fresh t budget now reader connect works s =
    let deadline = now + budget * 1000 in
    let o = timeout_at deadline now reader in
    respond_after_read-Gated decode others fresh s reader connect works t budget
      (read_event budget o.0) deadline o.1
      (λ raw k.
        timeout_at_value deadline now reader (returned (ok raw)) (read_event_ok budget o.0 raw k))
