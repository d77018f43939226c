-- ===== src/Hooks/Claude/FailClosed/Laws.antt =====
-- Which hooks of Claude Code fail closed (crates/hooks/claude/src/response.rs).
use sondera_coding_agent_hoo.Prelude.{
  Bool, true, false, not, ◌||◌, Option, none, some, List, [], ◌∷◌, ◌++◌, Has, ◌≡◌, refl, inl, inr,
  Bool-cases, ◌∙◌,
}
use sondera_coding_agent_hoo.Prelude.Text.{Text, codes, text_eq, text_eq→eq, contains_text}
use sondera_coding_agent_hoo.Prelude.Lists.{contains_text→Has}
use sondera_coding_agent_hoo.Types.Json.{Json, is_null}
use sondera_coding_agent_hoo.Hooks.Error.{HookError, fail_closed_reason}
use sondera_coding_agent_hoo.Hooks.Claude.Response.{
  HookResponse, HookSpecificOutput, PermissionDecision, PermissionRequestBehavior, BlockDecision,
  pre_tool_use, permission_request, allow_response, with_system_message, block_response,
  pre_tool_deny, pre_tool_answer, permission_deny_and_interrupt, permission_answer, post_tool_block,
  post_tool_block_with_redacted_output, post_tool_block_with_output, stop, prompt_block,
}
use sondera_coding_agent_hoo.Hooks.Claude.FailClosed.{
  lifecycle_degrades_open, is_budget_exceeded, is_policy_settings, blocked_output, tool_response,
  by_name, fail_closed_response,
}

-- Whether Claude Code holds back what the hook is about: it stops, a `block` decision, or a denied
-- permission.
abbrev denies : Option HookSpecificOutput → Bool
denies (some (pre_tool_use o)) = elim o.permission_decision [
  | some PermissionDecision.deny ↦ true
  | _ ↦ false
]
denies (some (permission_request o)) = elim o.decision.behavior [
  | PermissionRequestBehavior.deny ↦ true
  | _ ↦ false
]
denies _ = false

abbrev decides : Option BlockDecision → Bool
decides none = false
decides (some d) = true

abbrev pub blocks : HookResponse → Bool
blocks r = not r.continue_execution || decides r.decision || denies r.hook_specific_output

-- The hooks that guard an action, and those that end a piece of work.
abbrev pub guarding : List Text
guarding =
    codes "PreToolUse"
    ∷ codes "PermissionRequest"
    ∷ codes "PostToolUse"
    ∷ codes "UserPromptSubmit"
    ∷ codes "PreCompact"
    ∷ []

abbrev pub ending : List Text
ending = codes "SubagentStop" ∷ codes "TaskCompleted" ∷ codes "TeammateIdle" ∷ []

-- There is a response, and whether it blocks is `b`.
abbrev pub Answers : Option HookResponse → Bool → Type 0
Answers o b = (r : HookResponse) × ((o ≡ some r) × (blocks r ≡ b))

pub record FailsClosed (input : Option Json) (error : HookError) : Type 0 where
  pub guards :
      (name : Text) → Has name guarding → Answers (fail_closed_response name input error) true
  pub ends :
      (name : Text)
      → Has name ending
      → Answers (fail_closed_response name input error) (not (is_budget_exceeded error))
  pub configures :
      is_policy_settings input ≡ false
      → Answers (fail_closed_response (codes "ConfigChange") input error) true
  pub settings :
      is_policy_settings input ≡ true
      → fail_closed_response (codes "ConfigChange") input error ≡ none
  pub observes :
      (name : Text)
      → ¬ Has name (codes "ConfigChange" ∷ guarding ++ ending)
      → fail_closed_response name input error ≡ none

module _ (input : Option Json) (error : HookError) where
  blocked_output-blocks :
      (reason : Text) (o : Option Json) → blocks (blocked_output reason o) ≡ true
  unfolding blocked_output post_tool_block post_tool_block_with_redacted_output
      post_tool_block_with_output allow_response
  blocked_output-blocks reason none = refl
  blocked_output-blocks reason (some v) = elim (Bool-cases (is_null v)) [
    | inl e ↦ rw e refl
    | inr e ↦ rw e refl
  ]

  -- No guarding hook is among those that a spent budget lets pass.
  closed_by_name :
      (name : Text)
      → lifecycle_degrades_open name ≡ false
      → fail_closed_response name input error ≡ by_name name (fail_closed_reason error) input
  unfolding fail_closed_response
  closed_by_name name h = elim (Bool-cases (is_budget_exceeded error)) [
    | inl e ↦ rw e (rw h refl)
    | inr e ↦ rw e refl
  ]

  guard_blocks :
      (name : Text) → Has name guarding → Answers (fail_closed_response name input error) true
  unfolding by_name lifecycle_degrades_open contains_text text_eq pre_tool_deny pre_tool_answer
      permission_deny_and_interrupt permission_answer prompt_block block_response allow_response
  guard_blocks name (inl e) = rw e (_, (closed_by_name (codes "PreToolUse") refl, refl))
  guard_blocks name (inr (inl e)) =
      rw e (_, (closed_by_name (codes "PermissionRequest") refl, refl))
  guard_blocks name (inr (inr (inl e))) = rw e (
    _,
    (
      closed_by_name (codes "PostToolUse") refl,
      blocked_output-blocks (fail_closed_reason error) (tool_response input),
    ),
  )
  guard_blocks name (inr (inr (inr (inl e)))) =
      rw e (_, (closed_by_name (codes "UserPromptSubmit") refl, refl))
  guard_blocks name (inr (inr (inr (inr (inl e))))) =
      rw e (_, (closed_by_name (codes "PreCompact") refl, refl))
  guard_blocks name (inr (inr (inr (inr (inr h))))) = absurd h

  end_blocks :
      (name : Text)
      → Has name ending
      → Answers (fail_closed_response name input error) (not (is_budget_exceeded error))
  unfolding fail_closed_response by_name lifecycle_degrades_open contains_text text_eq
      block_response stop allow_response with_system_message
  end_blocks name h = elim (Bool-cases (is_budget_exceeded error)) [
    | inl b ↦ rw b (elim h [
      | inl e ↦ rw e (_, (refl, refl))
      | inr (inl e) ↦ rw e (_, (refl, refl))
      | inr (inr (inl e)) ↦ rw e (_, (refl, refl))
      | inr (inr (inr n)) ↦ absurd n
    ])
    | inr b ↦ rw b (elim h [
      | inl e ↦ rw e (_, (refl, refl))
      | inr (inl e) ↦ rw e (_, (refl, refl))
      | inr (inr (inl e)) ↦ rw e (_, (refl, refl))
      | inr (inr (inr n)) ↦ absurd n
    ])
  ]

  config_blocks :
      is_policy_settings input ≡ false
      → Answers (fail_closed_response (codes "ConfigChange") input error) true
  unfolding by_name contains_text text_eq block_response allow_response lifecycle_degrades_open
  config_blocks h = (
    block_response (fail_closed_reason error),
    (closed_by_name (codes "ConfigChange") refl ∙ rw h refl, refl),
  )

  settings_pass :
      is_policy_settings input ≡ true
      → fail_closed_response (codes "ConfigChange") input error ≡ none
  unfolding by_name contains_text text_eq lifecycle_degrades_open
  settings_pass h = closed_by_name (codes "ConfigChange") refl ∙ rw h refl

  differs : (name other : Text) → ¬ (name ≡ other) → text_eq name other ≡ false
  differs name other n = elim (Bool-cases (text_eq name other)) [
    | inl e ↦ absurd (n (text_eq→eq name other e))
    | inr e ↦ e
  ]

  absent : (xs : List Text) (name : Text) → ¬ Has name xs → contains_text xs name ≡ false
  absent xs name n = elim (Bool-cases (contains_text xs name)) [
    | inl e ↦ absurd (n (contains_text→Has xs name e))
    | inr e ↦ e
  ]

  others_pass :
      (name : Text)
      → ¬ Has name (codes "ConfigChange" ∷ guarding ++ ending)
      → fail_closed_response name input error ≡ none
  unfolding by_name lifecycle_degrades_open
  others_pass name n =
      closed_by_name name (absent ending name (λ h. n (inr (inr (inr (inr (inr (inr h))))))))
      ∙ rw (differs name (codes "ConfigChange") (λ e. n (inl e))) (
          rw (differs name (codes "PreToolUse") (λ e. n (inr (inl e)))) (
            rw (differs name (codes "PermissionRequest") (λ e. n (inr (inr (inl e))))) (
              rw (differs name (codes "PostToolUse") (λ e. n (inr (inr (inr (inl e)))))) (
                rw
                  (differs name (codes "PreCompact") (λ e. n (inr (inr (inr (inr (inr (inl e))))))))
                  (rw
                    (differs name (codes "SubagentStop")
                      (λ e. n (inr (inr (inr (inr (inr (inr (inl e)))))))))
                    (rw
                      (absent (codes "TaskCompleted" ∷ codes "TeammateIdle" ∷ []) name
                        (λ h. n (inr (inr (inr (inr (inr (inr (inr h)))))))))
                      (rw
                        (differs name (codes "UserPromptSubmit")
                          (λ e. n (inr (inr (inr (inr (inl e)))))))
                        refl)))))))

-- No failure lets an action through: whatever the error, each hook that guards an action blocks
-- it. The hooks that end a piece of work block too, unless the hook's own budget is spent, when
-- they let it pass. A change of the configuration is blocked unless it is one of the policy
-- settings, and every other hook leaves the answer to its caller.
pub fail_closed_response-FailsClosed :
    (input : Option Json) (error : HookError) → FailsClosed input error
fail_closed_response-FailsClosed input error = record {
  guards = guard_blocks input error;
  ends = end_blocks input error;
  configures = config_blocks input error;
  settings = settings_pass input error;
  observes = others_pass input error;
}
