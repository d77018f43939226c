-- ===== src/Hooks/Claude/Lifecycle/Laws.antt =====
-- Which hooks of a session's life enforce their verdict (crates/hooks/claude/src/hooks.rs).
use sondera_coding_agent_hoo.Prelude.{
  ℕ, true, false, not, inl, inr, [], ◌∷◌, ◌++◌, ◌≡◌, ◌≢◌, refl, sym, ap, ◌∙◌, subst,
}
use sondera_coding_agent_hoo.Prelude.Text.{Text, codes, is_empty}
use sondera_coding_agent_hoo.Types.Control.{Adjudicated}
use sondera_coding_agent_hoo.Types.Message.{deny_message}
use sondera_coding_agent_hoo.Types.Event.{Event, Fresh}
use sondera_coding_agent_hoo.Hooks.Runner.{ok}
use sondera_coding_agent_hoo.Hooks.Claude.Truncate.{cap_control_strings, consume_optional}
use sondera_coding_agent_hoo.Hooks.Claude.Response.{
  HookResponse, allow_response, stop, block_response, with_system_message,
}
use sondera_coding_agent_hoo.Hooks.Claude.FailClosed.Laws.{blocks}
use sondera_coding_agent_hoo.Hooks.Claude.Handlers.{Reply, judged, failed, Hooks, on_reply}
use sondera_coding_agent_hoo.Hooks.Claude.Handlers.Guards.{ok_injective, err_ok, decision_cases}
use sondera_coding_agent_hoo.Hooks.Claude.Lifecycle.{
  ConfigChangeType, CompactTrigger, user_settings, project_settings, local_settings,
  policy_settings, skills, lifecycle_block_response, or_response, unless_blocked, allow_anyway,
  config_response, end_session, terminal_control, config_context, compact_context, trigger_name,
  control_event, system_event, handle_session_start, handle_session_end, handle_notification,
  handle_subagent_start, handle_subagent_stop, handle_teammate_idle, handle_task_completed,
  handle_post_tool_use_failure, handle_config_change, handle_pre_compact,
}
use sondera_coding_agent_hoo.Hooks.Claude.Lifecycle.Enforced.{
  is_allow, Obeys, LetsPass, Reports, StaysSilent, prompt_of, Enforces,
}

unless_blocked-blocks :
    (deny_reason escalate_reason : Text) (build : Text → HookResponse) (allowed : HookResponse)
    (a : Adjudicated)
    → ((t : Text) → blocks (build t) ≡ true)
    → blocks allowed ≡ false
    → blocks (unless_blocked deny_reason escalate_reason build allowed a)
      ≡ not (is_allow a.decision)
unfolding unless_blocked lifecycle_block_response or_response
unless_blocked-blocks deny_reason escalate_reason build allowed a b q =
    elim (decision_cases a.decision) [
      | inl e ↦ rw e q
      | inr (inl e) ↦ rw e (b (deny_message deny_reason a))
      | inr (inr e) ↦ rw e (b (deny_message escalate_reason a))
    ]

stop-blocks : (t : Text) → blocks (stop t) ≡ true
unfolding stop allow_response
stop-blocks t = refl

block_response-blocks : (t : Text) → blocks (block_response t) ≡ true
unfolding block_response allow_response
block_response-blocks t = refl

allow_response-blocks : blocks allow_response ≡ false
unfolding allow_response
allow_response-blocks = refl

message-blocks : (t : Text) → blocks (with_system_message t allow_response) ≡ false
unfolding with_system_message allow_response
message-blocks t = refl

-- A change of settings other than the policy settings is decided by the verdict.
config_response-blocks :
    (t : ConfigChangeType) (context : Text) (a : Adjudicated)
    → t ≢ policy_settings
    → blocks (config_response t context a) ≡ not (is_allow a.decision)
unfolding config_response
config_response-blocks policy_settings context a n = absurd (n refl)
config_response-blocks user_settings context a n =
    unless_blocked-blocks _ _ block_response _ a block_response-blocks (message-blocks context)
config_response-blocks project_settings context a n =
    unless_blocked-blocks _ _ block_response _ a block_response-blocks (message-blocks context)
config_response-blocks local_settings context a n =
    unless_blocked-blocks _ _ block_response _ a block_response-blocks (message-blocks context)
config_response-blocks skills context a n =
    unless_blocked-blocks _ _ block_response _ a block_response-blocks (message-blocks context)
config_response-blocks ConfigChangeType.unknown context a n =
    unless_blocked-blocks _ _ block_response _ a block_response-blocks (message-blocks context)

compact_plain :
    (t : CompactTrigger)
    → compact_context t [] ≡ codes "Compaction requested (" ++ trigger_name t ++ codes ")"
unfolding compact_context trigger_name is_empty
compact_plain CompactTrigger.manual = refl
compact_plain CompactTrigger.auto = refl
compact_plain CompactTrigger.unknown = refl

compact_told :
    (t : CompactTrigger) (c : ℕ) (cs : Text)
    → compact_context t (c ∷ cs)
      ≡ codes "Compaction requested ("
        ++ trigger_name t
        ++ codes ")"
        ++ codes " with instructions: "
        ++ c ∷ cs
unfolding compact_context trigger_name is_empty
compact_told CompactTrigger.manual c cs = refl
compact_told CompactTrigger.auto c cs = refl
compact_told CompactTrigger.unknown c cs = refl

module _ {S : Type 0} where
  on_reply_state :
      (respond : Adjudicated → HookResponse) (x : Reply × S) → (on_reply respond x).1 ≡ x.1
  unfolding on_reply
  on_reply_state respond (judged a, s) = refl
  on_reply_state respond (failed x, s) = refl

  replied :
      (respond : Adjudicated → HookResponse)
      → ((a : Adjudicated) → blocks (respond a) ≡ not (is_allow a.decision))
      → (x : Reply × S) (r : HookResponse) → (on_reply respond x).0 ≡ ok r
      → (a : Adjudicated) × ((x.0 ≡ judged a) × (blocks r ≡ not (is_allow a.decision)))
  unfolding on_reply
  replied respond g (judged a, s) r m = (a, (refl, ap blocks (sym (ok_injective m)) ∙ g a))
  replied respond g (failed x, s) r m = absurd (err_ok m)

  replied_Obeys :
      (h : Hooks S) (s : S) (e : Event) (respond : Adjudicated → HookResponse)
      → ((a : Adjudicated) → blocks (respond a) ≡ not (is_allow a.decision))
      → Obeys h s e (on_reply respond (h.adjudicate e s))
  replied_Obeys h s e respond g =
      (on_reply_state respond (h.adjudicate e s), replied respond g (h.adjudicate e s))

  on_reply-LetsPass :
      (respond : Adjudicated → HookResponse)
      → ((a : Adjudicated) → blocks (respond a) ≡ false)
      → (x : Reply × S) → LetsPass (on_reply respond x)
  unfolding on_reply
  on_reply-LetsPass respond g (judged a, s) r m = ap blocks (sym (ok_injective m)) ∙ g a
  on_reply-LetsPass respond g (failed x, s) r m = absurd (err_ok m)

  replied_Reports :
      (h : Hooks S) (s : S) (e : Event) (response : HookResponse)
      → blocks response ≡ false
      → Reports h s e (on_reply (allow_anyway response) (h.adjudicate e s))
  unfolding allow_anyway
  replied_Reports h s e response g = (
    on_reply_state (allow_anyway response) (h.adjudicate e s),
    on_reply-LetsPass (allow_anyway response) (λ a. g) (h.adjudicate e s),
  )

  allowed_StaysSilent : (s : S) → StaysSilent s (ok allow_response, s)
  allowed_StaysSilent s = (refl, λ r m. ap blocks (sym (ok_injective m)) ∙ allow_response-blocks)

-- What enforces its verdict: the start of a session, the stop of a subagent, an idle teammate, a
-- completed task, a compaction, and a change of any but the policy settings have exactly the event
-- written out for them adjudicated, and block exactly where the answer to it is not Allow. A change
-- of the policy settings, a cleared, logged out or no longer bypassed session, a notification, the
-- start of a subagent and the failure of a tool have exactly the event written out for them
-- adjudicated, and are never blocked by their handlers. A stop that is already under way and any
-- other end of a session have nothing adjudicated, and are not blocked.
pub lifecycle-Enforces : {S : Type 0} (h : Hooks S) (fresh : Fresh) (s : S) → Enforces h fresh s
unfolding handle_session_start handle_session_end handle_notification handle_subagent_start
    handle_subagent_stop handle_teammate_idle handle_task_completed handle_post_tool_use_failure
    handle_config_change handle_pre_compact control_event system_event end_session terminal_control
    compact_context config_context config_response is_empty cap_control_strings consume_optional
lifecycle-Enforces h fresh s = record {
  starts = λ session.
      replied_Obeys h s _ _
        (λ a. unless_blocked-blocks _ _ stop _ a stop-blocks allow_response-blocks);
  stops = λ e k. rw k (
      replied_Obeys h s _ _ (λ a.
        unless_blocked-blocks _ _ block_response _ a block_response-blocks allow_response-blocks));
  idles = λ session.
      replied_Obeys h s _ _
        (λ a. unless_blocked-blocks _ _ stop _ a stop-blocks allow_response-blocks);
  completes = λ session subject.
      replied_Obeys h s _ _
        (λ a. unless_blocked-blocks _ _ stop _ a stop-blocks allow_response-blocks);
  compacts = λ session t.
      subst
        (λ x. Obeys h s (prompt_of h fresh session x) (handle_pre_compact h fresh session t [] s))
        (compact_plain t)
        (replied_Obeys h s _ _ (λ a.
          unless_blocked-blocks _ _ block_response _ a block_response-blocks
            allow_response-blocks));
  compacts_as_told = λ session t c cs.
      subst
        (λ x.
          Obeys h s (prompt_of h fresh session x) (handle_pre_compact h fresh session t (c ∷ cs) s))
        (compact_told t c cs)
        (replied_Obeys h s _ _ (λ a.
          unless_blocked-blocks _ _ block_response _ a block_response-blocks
            allow_response-blocks));
  configures = λ session t n. replied_Obeys h s _ _ (λ a. config_response-blocks t _ a n);
  settings = λ session.
      replied_Reports h s _ (with_system_message (config_context policy_settings) allow_response)
        (message-blocks (config_context policy_settings));
  stops_again = λ e k. rw k (allowed_StaysSilent s);
  clears = λ session. replied_Reports h s _ allow_response allow_response-blocks;
  logs_out = λ session. replied_Reports h s _ allow_response allow_response-blocks;
  disables = λ session. replied_Reports h s _ allow_response allow_response-blocks;
  exits = λ session. allowed_StaysSilent s;
  ends_otherwise = λ session. allowed_StaysSilent s;
  notifies = λ session t message. replied_Reports h s _ allow_response allow_response-blocks;
  spawns = λ session. replied_Reports h s _ allow_response allow_response-blocks;
  fails = λ e. replied_Reports h s _ allow_response allow_response-blocks;
}
