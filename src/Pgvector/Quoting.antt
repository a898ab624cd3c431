-- ===== src/Pgvector/Quoting.antt =====
-- saap/plugins/memory/pgvector/__init__.py: the names of tables.
use Prim.Native.Char.{Char, code}
use Prim.Native.String.{[], ◌∷◌}
use ai_voice.Prelude.{nat_beq, Bool, String, if◌then◌else◌}
use ai_voice.Prelude.Text.{append}
use ai_voice.Core.Types.{TenantContext}

abbrev pub shared_table : String
shared_table = "saap_shared_chunks"

unfoldable pub underscore : Char → Char
underscore c = if nat_beq (code c) b'-' then "_" else c

-- str.replace("-", "_")
unfoldable pub underscored : String → String
underscored [] = []
underscored (c ∷ s) = underscore c ∷ underscored s

unfoldable pub tenant_table_name : TenantContext → String
tenant_table_name tenant = append "tenant_" (append (underscored tenant.tenant_id) "_chunks")

-- str.replace('"', '""')
unfoldable pub doubled : String → String
doubled [] = []
doubled (c ∷ s) = let rest = doubled s in if nat_beq (code c) b'"' then c ∷ c ∷ rest else c ∷ rest

unfoldable pub quote_ident : String → String
quote_ident name = append "\"" (append (doubled name) "\"")

module _ (collection_per_tenant : Bool) where
  unfoldable pub table_name : TenantContext → String
  table_name tenant = if collection_per_tenant then tenant_table_name tenant else shared_table
