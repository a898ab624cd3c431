-- ===== src/Tests/Agents.antt =====
-- Approvals and tools at concrete inputs.
use ai_voice.Prelude.{
  ℕ, ◌+◌, ◌≡◌, ◌⊎◌, refl, true, String, none, some, List, [], ◌∷◌, string_eq, str_eq_iff, pair_eq,
}
use ai_voice.Prelude.Dict.{lookup}
use ai_voice.Prelude.Exec.{ok}
use ai_voice.Core.Types.{RiskTier}
use ai_voice.Core.Flow.{ApprovalRequest, ApprovalDecision}
use ai_voice.Hitl.{ApprovalStore, ApprovalStatus, status}
use ai_voice.Hitl.Lifecycle.{Operation, creating, deciding, sweeping, run, run-final}
use ai_voice.Mcp.Pool.{McpServerConfig, Pool, Backend, dispatch}
use ai_voice.Mcp.AllowList.{Listed, Untouched, dispatch_guarded}
use ai_voice.Tests.Fixtures.{clinic, flow, call_of}

abbrev request : ApprovalRequest
request = record {
  request_id = "r";
  tenant_id = "clinic";
  flow = flow;
  session_id = "s";
  tool_call = call_of "pay" RiskTier.high_risk;
  rationale = "refund";
  expires_at = 50;
}

abbrev one_request : ApprovalStore
one_request = record {
  requests = ("r", request) ∷ [];
  statuses = ("r", ApprovalStatus.pending) ∷ [];
}

abbrev yes : ApprovalDecision
yes = record { request_id = "r"; approved = true; approver = "a"; reason = none }

abbrev denied_request : ApprovalStore
denied_request = record one_request { statuses = ("r", ApprovalStatus.denied) ∷ [] }

-- A new request, an approval of the denied one that is refused, and a sweep.
abbrev afterwards : List Operation
afterwards = creating (record request { request_id = "q" }) ∷ deciding "r" yes ∷ sweeping 99 ∷ []

run-final_example : status "r" (run afterwards denied_request) ≡ some ApprovalStatus.denied
run-final_example =
    run-final afterwards denied_request "r" ApprovalStatus.denied (λ h. cc)
      ((λ e. cc ((str_eq_iff "q" "r").1 e)), (tt, (tt, tt))) (unfold status lookup in refl)

-- One server with one tool; a connection is its server's id, and the world counts calls.
abbrev crm : McpServerConfig
crm = record {
  server_id = "crm";
  transport = "http";
  endpoint = "http://crm";
  allowed_tools = "find" ∷ [];
  risk_overrides = [];
  oauth_audience = none;
}

abbrev crm_backend : Backend String ℕ
crm_backend = record {
  configs_for = λ tenant. crm ∷ [];
  connection_factory = some (λ tenant config w. (ok config.server_id, w));
  list_tools = λ conn w. (ok [], w);
  call_tool = λ conn name arguments w.
      (ok (record { call_id = ""; succeeded = true; content = none; error = none }), w + 1);
  close = λ conn w. (ok tt, w);
}

abbrev empty_pool : Pool String ℕ
empty_pool = record { connections = []; quarantined_tools = []; world = 0 }

dispatch_guarded_example :
    Listed (crm ∷ []) (call_of "mcp.crm.drop" RiskTier.read)
    ⊎ Untouched crm_backend
        (dispatch crm_backend clinic (call_of "mcp.crm.drop" RiskTier.read) empty_pool)
        empty_pool
dispatch_guarded_example =
    dispatch_guarded crm_backend clinic (call_of "mcp.crm.drop" RiskTier.read) empty_pool
