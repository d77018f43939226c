-- ===== src/Hooks/Claude/Run/Sent.antt =====
-- The events that the handlers of tool calls send (crates/hooks/claude/src/hooks.rs).
use sondera_coding_agent_hoo.Cedar.Harness.Laws.{IsJudged}
use sondera_coding_agent_hoo.Prelude.{subst, ◌≡◌}
use sondera_coding_agent_hoo.Types.Json.{Json}
use sondera_coding_agent_hoo.Types.Event.{Event, Fresh, new_event}
use sondera_coding_agent_hoo.Hooks.Runner.{Result, ok, err}
use sondera_coding_agent_hoo.Hooks.Claude.Handlers.{
  Hooks, pre_tool_event, permission_event, post_tool_event,
}
use sondera_coding_agent_hoo.Hooks.Claude.Handlers.Guards.{ok_injective, err_ok}
use sondera_coding_agent_hoo.Hooks.Claude.Run.{Command, Decoders}

-- The commands that a tool call goes through.
pub data ToolHook : Type 0 where
  pre permission post : ToolHook

abbrev pub command_of : ToolHook → Command
command_of pre = Command.pre_tool_use
command_of permission = Command.permission_request
command_of post = Command.post_tool_use

-- The event that a tool's handler sends for what was read.
abbrev pub decoded_event : {A : Type 0} → Result A → (A → Event) → Result Event
decoded_event (ok e) f = ok (f e)
decoded_event (err x) f = err x

abbrev pub sent_event : {S : Type 0} → Decoders → Hooks S → Fresh → ToolHook → Json → Result Event
sent_event decode h fresh pre raw = decoded_event (decode.pre_tool_use raw) (pre_tool_event h fresh)
sent_event decode h fresh permission raw =
    decoded_event (decode.permission_request raw) (permission_event h fresh)
sent_event decode h fresh post raw =
    decoded_event (decode.post_tool_use raw) (post_tool_event h fresh)

decoded_event-IsJudged :
    {A : Type 0} (x : Result A) (f : A → Event) (e : Event)
    → ((a : A) → IsJudged (f a).event)
    → decoded_event x f ≡ ok e
    → IsJudged e.event
decoded_event-IsJudged (ok a) f e g k = subst (λ y. IsJudged y.event) (ok_injective k) (g a)
decoded_event-IsJudged (err x) f e g k = absurd (err_ok k)

-- No handler of a tool call sends a lifecycle record.
pub sent_event-IsJudged :
    {S : Type 0} (decode : Decoders) (h : Hooks S) (fresh : Fresh) (t : ToolHook) (raw : Json)
    (e : Event)
    → sent_event decode h fresh t raw ≡ ok e
    → IsJudged e.event
unfolding pre_tool_event permission_event post_tool_event new_event
sent_event-IsJudged decode h fresh pre raw e k =
    decoded_event-IsJudged (decode.pre_tool_use raw) (pre_tool_event h fresh) e (λ a. tt) k
sent_event-IsJudged decode h fresh permission raw e k =
    decoded_event-IsJudged (decode.permission_request raw) (permission_event h fresh) e (λ a. tt) k
sent_event-IsJudged decode h fresh post raw e k =
    decoded_event-IsJudged (decode.post_tool_use raw) (post_tool_event h fresh) e (λ a. tt) k
