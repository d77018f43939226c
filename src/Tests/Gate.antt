-- ===== src/Tests/Gate.antt =====
-- The hook of Claude Code (crates/hooks/claude/src) over the policy engine, on a read of a file
-- that the policies permit.
use sondera_coding_agent_hoo.Prelude.{
  ℕ, ◌≡◌, ◌⊎◌, refl, ap, true, false, Option, none, some, [], ◌∷◌,
}
use sondera_coding_agent_hoo.Prelude.Text.{Text, codes}
use sondera_coding_agent_hoo.Types.Json.{Json, null, string, object, member, closed}
use sondera_coding_agent_hoo.Types.Control.{Adjudicated}
use sondera_coding_agent_hoo.Types.Event.{Event}
use sondera_coding_agent_hoo.Cedar.Verdict.{Response, permitted}
use sondera_coding_agent_hoo.Cedar.Store.{Db, Outcome}
use sondera_coding_agent_hoo.Cedar.Store
use sondera_coding_agent_hoo.Cedar.Harness.{Harness, adjudicate_event}
use sondera_coding_agent_hoo.Hooks.Error.{server}
use sondera_coding_agent_hoo.Hooks.Runner.{Timed, Result, returned, ok}
use sondera_coding_agent_hoo.Hooks.Claude.Response.{allow_response}
use sondera_coding_agent_hoo.Hooks.Claude.Handlers.{
  Hooks, Handled, Reply, judged, failed, ToolUseEvent,
}
use sondera_coding_agent_hoo.Hooks.Claude.Handlers.Guards.{holds_back}
use sondera_coding_agent_hoo.Hooks.Claude.Run.{Command, Decoders, Connected, reached, run_hook}
use sondera_coding_agent_hoo.Hooks.Claude.Run.Sent.{pre, command_of}
use sondera_coding_agent_hoo.Hooks.Claude.Run.Gate.{Passed, run_hook-Passed}
use sondera_coding_agent_hoo.Hooks.Claude.Run.Enforced.{Delivers, Recorded, run_hook-Recorded}
use sondera_coding_agent_hoo.Hooks.Claude.Lifecycle.Enforced.{Enforces}
use sondera_coding_agent_hoo.Hooks.Claude.Lifecycle.Laws.{lifecycle-Enforces}
use sondera_coding_agent_hoo.Tests.Harness.{outside, no_faults, agent, fresh, db, digest}

abbrev engine : Harness
engine = record {
  outside = outside;
  policies = λ id. none;
  invalid = λ r. none;
  authorize = λ r es. record { decision = permitted; reason = []; errors = [] };
  sha256 = digest;
}

abbrev reply_of : Outcome Adjudicated → Reply × Db
reply_of (Store.Result.ok a, d) = (judged a, d)
reply_of (Store.Result.err m, d) = (failed (server m), d)

abbrev client : Hooks Db
client = record {
  agent = agent;
  platform = codes "claude-code";
  adjudicate = λ e d. reply_of (adjudicate_event engine no_faults fresh e d);
  is_plan_file = λ path. false;
  serialize = λ v. codes "null";
}

abbrev call : ToolUseEvent
call = record {
  session_id = codes "s";
  cwd = codes "/w";
  tool_name = codes "Read";
  tool_input = object (member (codes "file_path") (string (codes "/w/a.txt")) closed);
  tool_use_id = codes "call-1";
}

abbrev decode : Decoders
decode = record {
  pre_tool_use = λ v. ok call;
  permission_request = λ v. ok call;
  post_tool_use = λ v. ok (record {
    session_id = codes "s";
    tool_name = codes "Read";
    tool_input = null;
    tool_response = null;
    tool_use_id = codes "call-1";
  });
}

abbrev others : Command → Hooks Db → Json → Db → Handled Db
others c h v d = (ok allow_response, d)

abbrev reader : Timed (Result Json)
reader = record { takes = some 5; comes_to = returned (ok null) }

abbrev connect : Timed (Connected Db)
connect = record { takes = some 20; comes_to = returned (reached client) }

abbrev works : Connected Db → Timed (Unit {0})
works x = record { takes = some 100; comes_to = returned tt }

reply_ok :
    (o : Outcome Adjudicated) (a : Adjudicated)
    → (reply_of o).0 ≡ judged a
    → o.0 ≡ Store.Result.ok a
reply_ok (Store.Result.ok b, d) a k = cc
reply_ok (Store.Result.err m, d) a k = cc

same_hooks : {h : Hooks Db} → returned (reached client) ≡ returned (reached h) → client ≡ h
same_hooks k = cc

delivers : Delivers engine no_faults fresh connect
delivers h k e d a m =
    reply_ok (adjudicate_event engine no_faults fresh e d) a
      (rw (ap (λ x. (x.adjudicate e d).0) (same_hooks k)) m)

run_hook-Passed_example :
    (holds_back (run_hook decode others fresh (command_of pre) 30 1000 reader connect works db)
      ≡ true)
    ⊎ (Passed decode fresh pre reader connect db
        × (run_hook decode others fresh (command_of pre) 30 1000 reader connect works db
            ≡ allow_response))
run_hook-Passed_example = run_hook-Passed decode others fresh pre 30 1000 reader connect works db

run_hook-Recorded_example :
    (holds_back (run_hook decode others fresh (command_of pre) 30 1000 reader connect works db)
      ≡ true)
    ⊎ Recorded engine no_faults fresh decode fresh pre reader connect db
run_hook-Recorded_example =
    run_hook-Recorded engine no_faults fresh decode others fresh pre 30 1000 reader connect works db
      delivers

-- The call passes: the verdict is Allow, and the response is empty.
passes :
    run_hook decode others fresh (command_of pre) 30 1000 reader connect works db ≡ allow_response
unfolding run_hook adjudicate_event Store.find_entity sondera_coding_agent_hoo.Types.Event.new_event
    sondera_coding_agent_hoo.Prelude.Text.contains_text
    sondera_coding_agent_hoo.Prelude.Text.text_eq Store.put_entity
    sondera_coding_agent_hoo.Cedar.Entity.uid_eq sondera_coding_agent_hoo.Guardrails.Label.level
    sondera_coding_agent_hoo.Cedar.Context.classify_label sondera_coding_agent_hoo.Types.Json.get
    sondera_coding_agent_hoo.Types.Json.insert
    sondera_coding_agent_hoo.Guardrails.Label.label_from_str
    sondera_coding_agent_hoo.Guardrails.Label.serde_name
    sondera_coding_agent_hoo.Cedar.Verdict.adjudicated_from_response
    sondera_coding_agent_hoo.Types.Control.new_adjudicated
passes = refl

lifecycle-Enforces_example : Enforces client fresh db
lifecycle-Enforces_example = lifecycle-Enforces client fresh db
