-- ===== src/Mcp/AllowList.antt =====
-- The allow-list of `MCPClientPool`: what `dispatch` and `catalog` let through.
use ai_voice.Prelude.{
  true, false, ◌≡◌, ◌⊎◌, inl, inr, refl, String, some, List, [], elem, string_eq, Bool-cases,
  Option-cases,
}
use ai_voice.Prelude.Dict.{lookup}
use ai_voice.Prelude.Exec.{Result, ok, err, Result-cases}
use ai_voice.Core.Types.{TenantContext, ToolCall, ToolResult}
use ai_voice.Mcp.Pool.{
  McpServerConfig, PoolError, Pool, Backend, configs_by_id, split_namespaced, dispatch, dispatch_to,
  not_listed,
}

-- The call names a server of the tenant's and a tool on that server's allow-list.
pub record Listed (configs : List McpServerConfig) (call : ToolCall) : Type 0 where
  pub server_id : String
  pub bare_name : String
  pub config : McpServerConfig
  pub named : split_namespaced call.tool_name ≡ ok (server_id, bare_name)
  pub configured : lookup server_id (configs_by_id [] configs) ≡ some config
  pub allowed : elem bare_name config.allowed_tools ≡ true

-- No tool was run: the result is an error or a failed result.
pub data NotRun : Result PoolError ToolResult → Type 0 where
  raised : (e : PoolError) → NotRun (err e)
  failed : (r : ToolResult) → r.succeeded ≡ false → NotRun (ok r)

module _ {Conn W : Type 0} (backend : Backend Conn W) where
  abbrev pub Untouched : Result PoolError ToolResult × Pool Conn W → Pool Conn W → Type 0
  Untouched (r, s') s = (s' ≡ s) × NotRun r

  not_listed-failed : (call : ToolCall) → (not_listed backend call).succeeded ≡ false
  unfolding not_listed
  not_listed-failed call = refl

  dispatch_to_guarded :
      (tenant : TenantContext) (call : ToolCall) (server_id bare_name : String) (s : Pool Conn W)
      → split_namespaced call.tool_name ≡ ok (server_id, bare_name)
      → Listed (backend.configs_for tenant) call
        ⊎ Untouched (dispatch_to backend tenant call server_id bare_name s) s
  unfolding dispatch_to
  dispatch_to_guarded tenant call server_id bare_name s h =
      elim (Option-cases (lookup server_id (configs_by_id [] (backend.configs_for tenant)))) [
        | inl e ↦ inr (rw (e, dispatch_to) (refl, failed _ (not_listed-failed call)))
        | inr (config, e) ↦ elim (Bool-cases (elem bare_name config.allowed_tools)) [
          | inl f ↦ inl (record {
            server_id = server_id;
            bare_name = bare_name;
            config = config;
            named = h;
            configured = e;
            allowed = f;
          })
          | inr f ↦ inr (rw (e, f, dispatch_to) (refl, failed _ (not_listed-failed call)))
        ]
      ]

  -- Only a call that names a server of the tenant's and a tool on that server's allow-list reaches
  -- a server. Any other call leaves the pool and the world as they are, no connection being
  -- opened, and ends in an error or a failed result.
  pub dispatch_guarded :
      (tenant : TenantContext) (call : ToolCall) (s : Pool Conn W)
      → Listed (backend.configs_for tenant) call ⊎ Untouched (dispatch backend tenant call s) s
  unfolding dispatch
  dispatch_guarded tenant call s = elim (Result-cases (split_namespaced call.tool_name)) [
    | inl ((server_id, bare_name), e) ↦
        rw (e, dispatch) (dispatch_to_guarded tenant call server_id bare_name s e)
    | inr (x, e) ↦ inr (rw (e, dispatch) (refl, raised x))
  ]
