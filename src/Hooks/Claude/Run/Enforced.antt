-- ===== src/Hooks/Claude/Run/Enforced.antt =====
-- The hook of Claude Code (crates/hooks/claude/src) over the policy engine
-- (crates/policy/cedar/src/lib.rs), from a tool call to its record in the ledgers.
use sondera_coding_agent_hoo.Prelude.{ℕ, true, ◌≡◌, ◌⊎◌, inl, inr}
use sondera_coding_agent_hoo.Types.Json.{Json}
use sondera_coding_agent_hoo.Types.Control.{Adjudicated}
use sondera_coding_agent_hoo.Types.Event.{Event, Fresh}
use sondera_coding_agent_hoo.Cedar.Store.{Db, Faults, ok}
use sondera_coding_agent_hoo.Cedar.Harness.{Harness, adjudicate_event}
use sondera_coding_agent_hoo.Cedar.Harness.Ledger.{outcome_of}
use sondera_coding_agent_hoo.Cedar.Harness.Success.{Appends, both_events, adjudicate_event_records}
use sondera_coding_agent_hoo.Hooks.Runner.{Timed, Result, returned}
use sondera_coding_agent_hoo.Hooks.Claude.Handlers.{Hooks, Handled, judged}
use sondera_coding_agent_hoo.Hooks.Claude.Handlers.Guards.{holds_back}
use sondera_coding_agent_hoo.Hooks.Claude.Run.{Command, Decoders, Connected, reached, run_hook}
use sondera_coding_agent_hoo.Hooks.Claude.Run.Sent.{ToolHook, command_of, sent_event-IsJudged}
use sondera_coding_agent_hoo.Hooks.Claude.Run.Gate.{Passed, run_hook-Passed}

-- The transport delivers verdicts: what the client hands on as a verdict on an event is what the
-- engine answered to it.
abbrev pub Delivers : Harness → Faults → Fresh → Timed (Connected Db) → Type 0
Delivers engine faults stamp connect =
    (h : Hooks Db)
    → connect.comes_to ≡ returned (reached h)
    → (e : Event) (db : Db) (a : Adjudicated) → (h.adjudicate e db).0 ≡ judged a
    → (adjudicate_event engine faults stamp e db).0 ≡ ok a

-- What the handler sends for the tool call was evaluated to Allow, and it is on record with its
-- verdict.
pub record Recorded (engine : Harness) (faults : Faults) (stamp : Fresh) (decode : Decoders)
    (fresh : Fresh) (t : ToolHook) (reader : Timed (Result Json)) (connect : Timed (Connected Db))
    (db : Db) : Type 0 where
  pub passed : Passed decode fresh t reader connect db
  pub evaluated : outcome_of engine faults stamp passed.event db ≡ ok passed.verdict
  pub recorded :
      Appends
        (both_events engine faults stamp passed.event passed.verdict)
        db
        (adjudicate_event engine faults stamp passed.event db).1

-- Enforcement from end to end, over a transport that delivers verdicts: a tool call, a permission
-- request or a tool's output is blocked or put to the user, unless its event was read and decoded,
-- and the policy engine evaluated the event that the handler sends for it to Allow and has it on
-- record with this verdict in both ledgers. This holds whatever fails, panics or takes too long in
-- the hook, and whichever access of the engine's store fails.
pub run_hook-Recorded :
    (engine : Harness) (faults : Faults) (stamp : Fresh) (decode : Decoders)
    (others : Command → Hooks Db → Json → Db → Handled Db) (fresh : Fresh) (t : ToolHook)
    (budget now : ℕ) (reader : Timed (Result Json)) (connect : Timed (Connected Db))
    (works : Connected Db → Timed (Unit {0})) (db : Db)
    → Delivers engine faults stamp connect
    → (holds_back (run_hook decode others fresh (command_of t) budget now reader connect works db)
        ≡ true)
      ⊎ Recorded engine faults stamp decode fresh t reader connect db
run_hook-Recorded engine faults stamp decode others fresh t budget now reader connect works db d =
    elim (run_hook-Passed decode others fresh t budget now reader connect works db) [
      | inl n ↦ inl n
      | inr (p, q) ↦
          let done =
            adjudicate_event_records engine faults stamp p.event db p.verdict
              (sent_event-IsJudged decode p.hooks fresh t p.raw p.event p.sent)
              (d p.hooks p.connected p.event db p.verdict p.answered) in
          inr (record { passed = p; evaluated = done.0; recorded = done.1 })
    ]
