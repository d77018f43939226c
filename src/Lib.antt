-- ===== src/Lib.antt =====
-- A model of the policy engine of the Sondera coding-agent hooks, with theorems about it.
--
-- An agent's hook sends an event to the harness, which asks the guardrails about its content,
-- builds a Cedar request, lets Cedar authorize it, turns the response into a verdict and writes
-- the event and the verdict to two ledgers. An event that is in the ledger is then handed to a
-- dispatcher, which lets a model scan it on the side, and readers see a run folded from its ledger.
-- The hook answers its agent with the verdict, or closes the action off when there is none. The
-- parts, and where they stand:
--
-- - Prelude: texts as lists of code points with the `str` methods that the code calls, ordered
--   sets (`BTreeSet`), lower-case mappings, UTF-8, signed integers.
-- - Cedar.Path: crates/policy/cedar/src/path_normalize.rs, `normalize_path_value`.
-- - Cedar.Shell: crates/policy/cedar/src/shell_parse.rs. Tables (wrappers, shells), Words
--   (unquoting, program names, Windows paths), Ansi (`unescape_ansi_c`), Node (the syntax tree
--   and `literal_text`), Record (`ShellParse` and its insertions), Walk (`visit`,
--   `handle_command`, `classify_invocation`, `peel_wrapper`, `handle_eval`, `parse_with_depth`).
--   `out: &mut ShellScan` is passed in and returned.
-- - Cedar.Url: crates/policy/cedar/src/url_parse.rs.
-- - Cedar.Context, Cedar.Request: crates/policy/cedar/src/transform.rs, `build_request` arm by arm
--   (Request.Targets; shell commands and web fetches mark no label) with `mark_trajectory_label`, `classify_label` and `classify_policy`.
-- - Cedar.Entity: crates/policy/cedar/src/entity.rs, the entity of a trajectory.
-- - Cedar.Store: the entity store and the ledgers as one state; `update_entity` of
--   crates/storage/src/turso/entity.rs and `persist`. Which access fails is a parameter.
--   Store.Reader is `events` of crates/storage/src/turso/mod.rs with its `ORDER BY`.
-- - Cedar.Verdict: `adjudicated_from_response` of crates/policy/cedar/src/transform.rs.
-- - Cedar.Harness: `adjudicate_event` of crates/policy/cedar/src/lib.rs, which composes the above.
-- - Guardrails: crates/guardrails: the sensitivity labels (ifc), the aggregation of signature
--   matches (signature), the classification record (policy).
-- - Types: crates/types/src: events, actions, observations, control records, verdicts, redaction.
--   Summary is trajectory/summary.rs: Lifecycle (status, digest, scan, summary of a run), Verdicts
--   (decision and policy hits), Fold (`fold_event_details`). Page is page.rs, and Json the values
--   of `serde_json`.
-- - Scans: Scanner is crates/trajectory/src/scanner.rs (which events are scanned) and error.rs;
--   Task, Dispatch and Run are crates/harness/src/scan.rs. A spawned scan is a task that takes one
--   step for each answer it waits for, and a world is the free permits, the tasks and the store.
-- - Hooks: crates/hooks/core/src: Error (error.rs, adjudication.rs), Runner (runner.rs: the budget
--   and `resolve_hook`), Tool (tool.rs: which tool calls touch a file; Tool.Web, the web).
-- - Hooks.Claude: crates/hooks/claude/src: Response and FailClosed (response.rs), Truncate
--   (truncate.rs), Action and Handlers (hooks.rs: tool calls, permission requests, tool outputs),
--   Lifecycle (hooks.rs: sessions, subagents, teams, notifications, settings, compactions),
--   Run (lib.rs: from the event of a command to its response, with the harness as a client).
-- - Tests: runs on concrete inputs, and each theorem at one of them.
--
-- Bounds. The walk of the shell analysis stops at a tree depth of 512 and at 4 nested re-parses,
-- as in the code: its two depth counters run down, so the recursion is structural and needs no
-- further fuel. `decimal` takes as fuel the successor of the number, which exceeds its count of
-- digits. A step count is an `i64` that wraps. Byte lengths are those of the UTF-8 encoding. A scan
-- takes at most five steps, so that a schedule of five for each scan ends them all.
--
-- Parameters. Code of other packages is an argument: the tree-sitter parser, the YARA scanner, the
-- two models, the `url` crate, SHA-256, `serde_json::to_string`, the Cedar authorizer, schema check
-- and policy annotations, time and random ids, and the Unicode tables outside ASCII (`IsTable`
-- says what is relied on, and the table that maps nothing outside ASCII has it). A failing access
-- of the store leaves it unchanged. The scans take the answers of their model, and which access of
-- the store fails, as arguments that may differ at each step. A future is a value with the time it
-- takes, if it ends, and `unwound` where it panics; time is counted in milliseconds. The decoders
-- of the hooks' events and the harness client are arguments; where the client stands for the
-- policy engine, the hypothesis `Delivers` says that its verdicts are the engine's.
--
-- Not modelled: the filters and queries over runs, the prompts of the scanner, mentions, the
-- handlers of Claude Code for prompts and `Stop`, its installation, the hooks of the other agents,
-- the MCP server, settings, storage queries, providers, the terminal interface, the console, the
-- wire schema, the loading of policies and the rendering of prompts.
pub mod Prelude
pub mod Cedar
pub mod Types
pub mod Guardrails
pub mod Scans
pub mod Hooks
pub mod Tests
