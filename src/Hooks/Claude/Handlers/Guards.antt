-- ===== src/Hooks/Claude/Handlers/Guards.antt =====
-- What the handlers of tool calls answer to a verdict (crates/hooks/claude/src/hooks.rs).
use sondera_coding_agent_hoo.Prelude.{
  Bool, true, false, ◌||◌, Option, some, ◌≡◌, refl, sym, ◌∙◌, ◌⊎◌, inl, inr,
}
use sondera_coding_agent_hoo.Prelude.Text.{Text}
use sondera_coding_agent_hoo.Types.Json.{Json}
use sondera_coding_agent_hoo.Types.Policy.{Decision}
use sondera_coding_agent_hoo.Types.Control.{Adjudicated}
use sondera_coding_agent_hoo.Hooks.Error.{HookError, from_client, fail_closed_reason_post_tool}
use sondera_coding_agent_hoo.Hooks.Runner.{Result, ok, err}
use sondera_coding_agent_hoo.Hooks.Claude.Response.{
  HookResponse, HookSpecificOutput, PermissionDecision, allow_response, pre_tool_deny, pre_tool_ask,
  pre_tool_answer, permission_deny, permission_answer, post_tool_block_with_redacted_output,
  post_tool_block_with_output,
}
use sondera_coding_agent_hoo.Hooks.Claude.FailClosed.Laws.{blocks}
use sondera_coding_agent_hoo.Hooks.Claude.Handlers.{
  Reply, judged, failed, on_reply, on_post_reply, pre_tool_response, permission_response,
  post_tool_response,
}

-- Whether the response asks the user first.
abbrev asks : Option HookSpecificOutput → Bool
asks (some (HookSpecificOutput.pre_tool_use o)) = elim o.permission_decision [
  | some PermissionDecision.ask ↦ true
  | _ ↦ false
]
asks _ = false

abbrev pub holds_back : HookResponse → Bool
holds_back r = blocks r || asks r.hook_specific_output

pub decision_cases :
    (d : Decision) → (d ≡ Decision.allow) ⊎ ((d ≡ Decision.deny) ⊎ (d ≡ Decision.escalate))
decision_cases Decision.allow = inl refl
decision_cases Decision.deny = inr (inl refl)
decision_cases Decision.escalate = inr (inr refl)

pub ok_injective : {A : Type 0} {a b : A} → ok a ≡ ok b → a ≡ b
ok_injective k = cc

pub err_ok : {A : Type 0} {e : HookError} {a : A} → err e ≡ ok a → ⊥
err_ok k = cc

-- A response to a verdict says nothing where the verdict is Allow, and holds the call back
-- otherwise.
abbrev pub Guards : (Adjudicated → HookResponse) → Type 0
Guards respond =
    (a : Adjudicated)
    → (holds_back (respond a) ≡ true)
      ⊎ ((a.decision ≡ Decision.allow) × (respond a ≡ allow_response))

pub pre_tool_response-Guards : (tool : Text) → Guards (pre_tool_response tool)
unfolding pre_tool_response pre_tool_deny pre_tool_ask pre_tool_answer allow_response
pre_tool_response-Guards tool a = elim (decision_cases a.decision) [
  | inl e ↦ inr (e, rw e refl)
  | inr (inl e) ↦ inl (rw e refl)
  | inr (inr e) ↦ inl (rw e refl)
]

pub permission_response-Guards : (tool : Text) → Guards (permission_response tool)
unfolding permission_response permission_deny permission_answer allow_response
permission_response-Guards tool a = elim (decision_cases a.decision) [
  | inl e ↦ inr (e, rw e refl)
  | inr (inl e) ↦ inl (rw e refl)
  | inr (inr e) ↦ inl (rw e refl)
]

withheld-holds_back :
    (reason : Text) (output : Json)
    → holds_back (post_tool_block_with_redacted_output reason output) ≡ true
unfolding post_tool_block_with_redacted_output post_tool_block_with_output allow_response
withheld-holds_back reason output = refl

post_tool_response-Guards : (output : Json) → Guards (post_tool_response output)
unfolding post_tool_response post_tool_block_with_redacted_output post_tool_block_with_output
    allow_response
post_tool_response-Guards output a = elim (decision_cases a.decision) [
  | inl e ↦ inr (e, rw e refl)
  | inr (inl e) ↦ inl (rw e refl)
  | inr (inr e) ↦ inl (rw e refl)
]

-- What a handler returns for a reply is held back, or says nothing to an Allow.
abbrev pub Answered : Reply → Result HookResponse → Type 0
Answered reply res =
    (r : HookResponse)
    → res ≡ ok r
    → (holds_back r ≡ true)
      ⊎ (((a : Adjudicated) × ((reply ≡ judged a) × (a.decision ≡ Decision.allow)))
          × (r ≡ allow_response))

module _ {S : Type 0} where
  pub on_reply-Answered :
      (respond : Adjudicated → HookResponse)
      → Guards respond
      → (reply : Reply × S) → Answered reply.0 (on_reply respond reply).0
  unfolding on_reply
  on_reply-Answered respond g (judged a, s) r k = elim (g a) [
    | inl h ↦ inl (rw (← ok_injective k) h)
    | inr (d, h) ↦ inr ((a, (refl, d)), sym (ok_injective k) ∙ h)
  ]
  on_reply-Answered respond g (failed e, s) r k = absurd (err_ok k)

  pub on_post_reply-Answered :
      (output : Json) (reply : Reply × S) → Answered reply.0 (on_post_reply output reply).0
  unfolding on_post_reply
  on_post_reply-Answered output (judged a, s) r k = elim (post_tool_response-Guards output a) [
    | inl h ↦ inl (rw (← ok_injective k) h)
    | inr (d, h) ↦ inr ((a, (refl, d)), sym (ok_injective k) ∙ h)
  ]
  on_post_reply-Answered output (failed e, s) r k = inl (
      rw (← ok_injective k)
        (withheld-holds_back (fail_closed_reason_post_tool (from_client e)) output))
