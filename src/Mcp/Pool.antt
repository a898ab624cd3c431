-- ===== src/Mcp/Pool.antt =====
-- `MCPClientPool` of saap/core/mcp.py. `Conn` is a connection and `W` the world behind them all.
use ai_voice.Prelude.{
  false, not, String, Option, none, some, List, [], ◌∷◌, ◌++◌, map, keep, elem, ◌==◌, string_eq,
  pair_eq, if◌then◌else◌,
}
use ai_voice.Prelude.Dict.{Dict, lookup, insert, get_or, values}
use ai_voice.Prelude.Text.{append, split_first, repr}
use ai_voice.Prelude.Exec.{Result, ok, err, Exec, pure, raise, ◌>>=◌, ◌>>◌}
use ai_voice.Core.Types.{TenantContext, ToolCall, ToolResult, Value}

-- saap/core/llm.py; the schema is its JSON text.
pub record ToolSpec : Type 0 where
  pub name : String
  pub description : String
  pub input_schema : String

pub record McpServerConfig : Type 0 where
  pub server_id : String
  pub transport : String
  pub endpoint : String
  pub allowed_tools : List String
  pub risk_overrides : Dict String String
  pub oauth_audience : Option String

-- The exceptions that leave the pool, by class, with their text.
pub data PoolError : Type 0 where
  value_error runtime_error connection_error : String → PoolError

-- The attributes of the pool that change, and the world.
pub record Pool (Conn W : Type 0) : Type 0 where
  pub connections : Dict (String × String) Conn
  pub quarantined_tools : Dict (String × String) (List String)
  pub world : W

unfoldable pub namespaced : String → String → String
namespaced server_id tool_name = append "mcp." (append server_id (append "." tool_name))

-- The three parts of tool_name.split(".", 2), if there are three.
abbrev pub split_in_three : String → Option (String × String × String)
split_in_three tool_name = elim (split_first b'.' tool_name) [
  | none ↦ none
  | some (a, rest) ↦ elim (split_first b'.' rest) [ none ↦ none | some (b, c) ↦ some (a, b, c) ]
]

unfoldable pub split_namespaced : String → Result PoolError (String × String)
split_namespaced tool_name =
    let bad : Result PoolError (String × String) = err (
      value_error (
        append "tool name "
          (append (repr tool_name) " is not namespaced as mcp.<server>.<tool>"))) in
    elim (split_in_three tool_name) [
      | none ↦ bad
      | some (first, server_id, bare_name) ↦
          if first == "mcp" then ok (server_id, bare_name) else bad
    ]

-- {c.server_id: c for c in configs}
unfoldable pub configs_by_id :
    Dict String McpServerConfig → List McpServerConfig → Dict String McpServerConfig
configs_by_id d [] = d
configs_by_id d (c ∷ cs) = configs_by_id (insert c.server_id c d) cs

-- What the pool is given: a factory may be missing.
pub record Backend (Conn W : Type 0) : Type 0 where
  pub configs_for : TenantContext → List McpServerConfig
  pub connection_factory : Option (TenantContext → McpServerConfig → Exec PoolError W Conn)
  pub list_tools : Conn → Exec PoolError W (List ToolSpec)
  pub call_tool : Conn → String → Dict String Value → Exec PoolError W ToolResult
  pub close : Conn → Exec PoolError W (Unit {0})

module _ {Conn W : Type 0} (backend : Backend Conn W) where
  -- An action of the world, run by the pool.
  abbrev in_world : {A : Type 0} → Exec PoolError W A → Exec PoolError (Pool Conn W) A
  in_world m s = let (r, w) = m s.world in (r, record s { world = w })

  unfoldable pub connection_for :
      TenantContext → McpServerConfig → Exec PoolError (Pool Conn W) Conn
  connection_for tenant config s =
      let key : String × String = (tenant.tenant_id, config.server_id) in
      elim (lookup key s.connections) [
        | some conn ↦ (ok conn, s)
        | none ↦ elim backend.connection_factory [
          | none ↦ (
            err (
                runtime_error (
                  append
                    "no connection_factory bound; MCPClientPool cannot open a connection to server "
                    (repr config.server_id))),
            s,
          )
          | some factory ↦
              (do
                conn ← in_world (factory tenant config)
                (λ s'. (ok conn, record s' { connections = insert key conn s'.connections })))
                s
        ]
      ]

  abbrev pub offered : McpServerConfig → List ToolSpec → List ToolSpec
  offered config live =
      map (λ (t : ToolSpec). record t { name = namespaced config.server_id t.name })
        (keep (λ t. elem t.name config.allowed_tools) live)

  abbrev pub off_list : McpServerConfig → List ToolSpec → List String
  off_list config live =
      keep (λ n. not (elem n config.allowed_tools)) (map (λ (t : ToolSpec). t.name) live)

  -- The body of the loop of `catalog`: what one server adds.
  unfoldable pub catalog_server :
      TenantContext → McpServerConfig → Exec PoolError (Pool Conn W) (List ToolSpec)
  catalog_server tenant config = do
    conn ← connection_for tenant config
    live ← in_world (backend.list_tools conn)
    λ s. (
      ok (offered config live),
      record s {
        quarantined_tools =
            insert (tenant.tenant_id, config.server_id) (off_list config live) s.quarantined_tools;
      },
    )

  unfoldable pub catalog_loop :
      TenantContext → List McpServerConfig → Exec PoolError (Pool Conn W) (List ToolSpec)
  catalog_loop tenant [] = pure []
  catalog_loop tenant (c ∷ cs) = do
    tools ← catalog_server tenant c
    rest ← catalog_loop tenant cs
    pure (tools ++ rest)

  unfoldable pub catalog : TenantContext → Exec PoolError (Pool Conn W) (List ToolSpec)
  catalog tenant = catalog_loop tenant (backend.configs_for tenant)

  unfoldable pub not_listed : ToolCall → ToolResult
  not_listed call = record {
    call_id = call.call_id;
    succeeded = false;
    content = none;
    error =
        some (append "tool " (append (repr call.tool_name) " is not allow-listed for this tenant"));
  }

  unfoldable pub dispatch_to :
      TenantContext → ToolCall → String → String → Exec PoolError (Pool Conn W) ToolResult
  dispatch_to tenant call server_id bare_name =
      elim (lookup server_id (configs_by_id [] (backend.configs_for tenant))) [
        | none ↦ pure (not_listed call)
        | some config ↦
            if elem bare_name config.allowed_tools
            then (do
              conn ← connection_for tenant config
              in_world (backend.call_tool conn bare_name call.arguments))
            else pure (not_listed call)
      ]

  unfoldable pub dispatch : TenantContext → ToolCall → Exec PoolError (Pool Conn W) ToolResult
  dispatch tenant call = elim (split_namespaced call.tool_name) [
    | err e ↦ raise e
    | ok (server_id, bare_name) ↦ dispatch_to tenant call server_id bare_name
  ]

  unfoldable pub close_loop : List Conn → Exec PoolError W (Unit {0})
  close_loop [] = pure tt
  close_loop (c ∷ cs) = do backend.close c; close_loop cs

  unfoldable pub close_all : Exec PoolError (Pool Conn W) (Unit {0})
  close_all s =
      (do
        in_world (close_loop (values s.connections))
        λ s'. (ok tt, record s' { connections = [] }))
        s

-- `MCPClientPool.quarantined`
unfoldable pub quarantined : {Conn W : Type 0} → Pool Conn W → TenantContext → String → List String
quarantined s tenant server_id = get_or (tenant.tenant_id, server_id) [] s.quarantined_tools
