-- ===== src/Hooks/Error.antt =====
-- What a hook can fail at and what it then says: crates/hooks/core/src/error.rs and
-- crates/hooks/core/src/adjudication.rs. An error of a library is kept by its text.
use sondera_coding_agent_hoo.Prelude.{ℕ}
use sondera_coding_agent_hoo.Prelude.Text.{Text, codes}

-- The errors of the harness client: crates/types/src/error.rs.
pub data HarnessClientError : Type 0 where
  bad_config unavailable : Text → HarnessClientError
  timeout : HarnessClientError
  server invalid_argument not_found already_exists decode : Text → HarnessClientError

pub data HookError : Type 0 where
  config unreachable : Text → HookError
  service_timeout : HookError
  server_rejected service_unavailable : Text → HookError
  budget_exceeded : (budget_secs : ℕ) → HookError
  panicked : HookError
  plain : Text → HookError
  in_context : (text source : Text) → HookError
  io json : Text → HookError

-- `From<HarnessClientError>`.
unfoldable pub from_client : HarnessClientError → HookError
from_client (bad_config m) = config m
from_client (unavailable m) = unreachable m
from_client timeout = service_timeout
from_client (server m) = server_rejected m
from_client (invalid_argument m) = server_rejected m
from_client (not_found m) = server_rejected m
from_client (already_exists m) = server_rejected m
from_client (decode m) = service_unavailable m

unfoldable pub category : HookError → Text
category (config m) = codes "config"
category (server_rejected m) = codes "server"
category _ = codes "network"

unfoldable pub remediation : HookError → Text
remediation (config m) = codes "[sondera] Configuration error in ~/.sondera/env. Check file format."
remediation (unreachable m) =
    codes
      "[sondera] Cannot reach Sondera service. Start it with `sondera serve`, or point SONDERA_HARNESS_ENDPOINT at a running one (default http://127.0.0.1:50051)."
remediation service_timeout =
    codes
      "[sondera] Sondera service timed out while policy adjudication was in progress. The service was reachable; check harness latency/load or contact your admin."
remediation (budget_exceeded n) =
    codes
      "[sondera] Sondera hook timed out before policy enforcement completed. Check hook setup latency, harness latency/load, or contact your admin."
remediation (server_rejected m) =
    codes
      "[sondera] Sondera service rejected the request (server-side policy/schema error, not a connectivity issue). Contact your admin."
remediation _ =
    codes
      "[sondera] Sondera service temporarily unavailable. Check that `sondera serve` is running at SONDERA_HARNESS_ENDPOINT, or contact your admin."

unfoldable pub fallback_context : HookError → Text
fallback_context (config m) =
    codes
      "Sondera is running in passthrough mode. Fix the syntax in ~/.sondera/env to enable policy enforcement."
fallback_context (server_rejected m) =
    codes
      "Sondera is running in passthrough mode. The governance service rejected the request due to a server-side policy configuration error; contact your admin."
fallback_context _ =
    codes
      "Sondera is running in passthrough mode. The governance service is temporarily unavailable."

abbrev pub fail_closed_reason_default : Text
fail_closed_reason_default =
    codes
      "Sondera policy enforcement is unavailable, so this action was denied by fail-closed enforcement. Check that `sondera serve` is running and reachable at SONDERA_HARNESS_ENDPOINT, or contact your admin."

abbrev fail_closed_reason_timeout : Text
fail_closed_reason_timeout =
    codes
      "Sondera policy enforcement timed out, so this action was denied by fail-closed enforcement. The service was reachable, but adjudication exceeded the hook budget; check harness latency/load or contact your admin."

abbrev fail_closed_reason_hook_timeout : Text
fail_closed_reason_hook_timeout =
    codes
      "Sondera policy enforcement timed out, so this action was denied by fail-closed enforcement. The hook exceeded its budget before enforcement completed; check hook setup latency, harness latency/load, or contact your admin."

abbrev fail_closed_reason_server : Text
fail_closed_reason_server =
    codes
      "Sondera policy enforcement rejected this action due to a server-side policy configuration error (not a connectivity issue). Contact your admin."

-- `fail_closed_reason`.
unfoldable pub fail_closed_reason : HookError → Text
fail_closed_reason (budget_exceeded n) = fail_closed_reason_hook_timeout
fail_closed_reason service_timeout = fail_closed_reason_timeout
fail_closed_reason (server_rejected m) = fail_closed_reason_server
fail_closed_reason _ = fail_closed_reason_default

abbrev fail_closed_reason_server_post_tool : Text
fail_closed_reason_server_post_tool =
    codes
      "Sondera policy enforcement rejected this tool output due to a server-side policy configuration error (not a connectivity issue). Contact your admin."

abbrev fail_closed_reason_post_tool_default : Text
fail_closed_reason_post_tool_default =
    codes
      "Sondera policy enforcement is unavailable, so this tool output was blocked by fail-closed enforcement. Check that `sondera serve` is running and reachable at SONDERA_HARNESS_ENDPOINT, or contact your admin."

abbrev fail_closed_reason_timeout_post_tool : Text
fail_closed_reason_timeout_post_tool =
    codes
      "Sondera policy enforcement timed out, so this tool output was blocked by fail-closed enforcement. The service was reachable, but adjudication exceeded the hook budget; check harness latency/load or contact your admin."

abbrev fail_closed_reason_hook_timeout_post_tool : Text
fail_closed_reason_hook_timeout_post_tool =
    codes
      "Sondera policy enforcement timed out, so this tool output was blocked by fail-closed enforcement. The hook exceeded its budget before enforcement completed; check hook setup latency, harness latency/load, or contact your admin."

-- `fail_closed_reason_post_tool`.
unfoldable pub fail_closed_reason_post_tool : HookError → Text
fail_closed_reason_post_tool (budget_exceeded n) = fail_closed_reason_hook_timeout_post_tool
fail_closed_reason_post_tool service_timeout = fail_closed_reason_timeout_post_tool
fail_closed_reason_post_tool (server_rejected m) = fail_closed_reason_server_post_tool
fail_closed_reason_post_tool _ = fail_closed_reason_post_tool_default
