-- ===== src/Mcp/Toolkit.antt =====
-- saap/langflow_components/logic/mcp_toolkit.py: the policy decision in front of the pool.
use ai_voice.Prelude.{false, ◌≡◌, ◌≢◌, refl, none, some, List}
use ai_voice.Prelude.Exec.{Result, ok, Exec, pure, ◌>>=◌}
use ai_voice.Core.Types.{TenantContext, ToolCall, ToolResult}
use ai_voice.Compliance.Chain.{Decision, allow, deny, require_human}
use ai_voice.Mcp.Pool.{PoolError, Pool, Backend, ToolSpec, catalog, dispatch}

pub data McpToolkitOutcome : Type 0 where
  dispatched denied : ToolResult → McpToolkitOutcome
  pending_approval : ToolCall → McpToolkitOutcome

module _ {Conn W : Type 0} (backend : Backend Conn W)
    (evaluate : TenantContext → ToolCall → Exec PoolError W Decision) where
  -- `PolicyGuard.evaluate`, which may read and change the world but not the pool.
  abbrev guard : TenantContext → ToolCall → Exec PoolError (Pool Conn W) Decision
  guard tenant call s = let (r, w) = evaluate tenant call s.world in (r, record s { world = w })

  abbrev carry_out :
      Decision → TenantContext → ToolCall → Exec PoolError (Pool Conn W) McpToolkitOutcome
  carry_out deny tenant call = pure (
      denied (record {
        call_id = call.call_id;
        succeeded = false;
        content = none;
        error = some "denied by policy";
      }))
  carry_out require_human tenant call = pure (pending_approval call)
  carry_out allow tenant call = do result ← dispatch backend tenant call; pure (dispatched result)

  unfoldable pub build_tools : TenantContext → Exec PoolError (Pool Conn W) (List ToolSpec)
  build_tools tenant = catalog backend tenant

  unfoldable pub handle_call :
      TenantContext → ToolCall → Exec PoolError (Pool Conn W) McpToolkitOutcome
  handle_call tenant call = do decision ← guard tenant call; carry_out decision tenant call

  -- A call that is denied or held back, as its outcome shows it.
  pub data Withheld (call : ToolCall) : Decision → Result PoolError McpToolkitOutcome → Type 0 where
    held_back : Withheld call require_human (ok (pending_approval call))
    refused_call : (r : ToolResult) → r.succeeded ≡ false → Withheld call deny (ok (denied r))

  carry_out-Withheld :
      (tenant : TenantContext) (call : ToolCall) (s : Pool Conn W) (d : Decision)
      → d ≢ allow
      → ((carry_out d tenant call s).1 ≡ s) × Withheld call d (carry_out d tenant call s).0
  carry_out-Withheld tenant call s allow k = absurd (k refl)
  carry_out-Withheld tenant call s deny k = (refl, refused_call _ refl)
  carry_out-Withheld tenant call s require_human k = (refl, held_back)

  -- Unless the policy allows the call, the pool is not used: its connections and its quarantine
  -- are as before, the world is as the policy check left it, and the outcome is a failed result
  -- for a denial, and the call itself, to be approved, where a human is required.
  pub handle_call-Withheld :
      (tenant : TenantContext) (call : ToolCall) (s : Pool Conn W) (d : Decision)
      → (evaluate tenant call s.world).0 ≡ ok d
      → d ≢ allow
      → ((handle_call tenant call s).1 ≡ record s { world = (evaluate tenant call s.world).1 })
        × Withheld call d (handle_call tenant call s).0
  unfolding handle_call
  handle_call-Withheld tenant call s d h k =
      rw (h)
        (carry_out-Withheld tenant call (record s { world = (evaluate tenant call s.world).1 }) d k)
