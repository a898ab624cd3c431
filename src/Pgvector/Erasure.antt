-- ===== src/Pgvector/Erasure.antt =====
-- What a deletion of saap/plugins/memory/pgvector/__init__.py leaves.
use ai_voice.Prelude.{
  ℕ, ◌≡◌, refl, ap, ◌∙◌, Bool, true, false, not, ◌&&◌, ◌||◌, String, List, [], ◌∷◌, keep, every,
  All, ◌==◌, string_eq, arith,
}
use ai_voice.Prelude.Dict.{lookup}
use ai_voice.Prelude.Exec.{ok, Exec, zoom, parts, bind-Parts}
use ai_voice.Core.Types.{TenantContext}
use ai_voice.Pgvector.Quoting.{quote_ident, table_name}
use ai_voice.Pgvector.Store.{
  Params, ChunkRow, Database, PgState, world_lens, in_transaction, delete_params, delete_conditions,
  ensure_table, delete_by_source,
}
use ai_voice.Pgvector.Transactions.{settle-ok, zoomed}
use ai_voice.Pgvector.Isolation.{IsCondition, of_tenant, of_source, IsFaithful, belongs}

-- The rows of a source that are a tenant's: in a table of its own, all rows are.
abbrev pub is_of : Bool → TenantContext → String → ChunkRow → Bool
is_of collection_per_tenant tenant source_uri row =
    row.source_uri == source_uri && (collection_per_tenant || belongs tenant.tenant_id row)

keep_none :
    {A : Type 0} (p q : A → Bool) (xs : List A)
    → ((x : A) → p x ≡ true → q x ≡ true)
    → keep p (keep (λ x. not (q x)) xs) ≡ []
keep_none p q [] h = refl
keep_none p q (x ∷ xs) h = ground (arith, keep_none p q xs h, h x)

module _ {E W F : Type 0} (db : Database E W F) (plain : String → Bool)
    (rows : String → W → List ChunkRow) (holds : Params → ChunkRow → String → Bool)
    (faithful : IsFaithful db plain rows holds) where
  deleted_row :
      (collection_per_tenant : Bool) (tenant : TenantContext) (source_uri : String) (row : ChunkRow)
      → is_of collection_per_tenant tenant source_uri row ≡ true
      → every
          (holds (delete_params tenant source_uri) row)
          (delete_conditions collection_per_tenant)
        ≡ true
  unfolding delete_params delete_conditions lookup
  deleted_row true tenant source_uri row h =
      ground (arith, h, faithful.source_holds (delete_params tenant source_uri) row)
  deleted_row false tenant source_uri row h = ground (
    arith,
    h,
    faithful.source_holds (delete_params tenant source_uri) row,
    faithful.tenant_holds (delete_params tenant source_uri) row,
  )

  usable :
      (collection_per_tenant : Bool)
      → All (IsCondition plain) (delete_conditions collection_per_tenant)
  unfolding delete_conditions
  usable true = (of_source, tt)
  usable false = (of_source, (of_tenant, tt))

-- Behind a deletion that succeeds, no row of the source is left that is the tenant's, in the shared table
-- and in a table of the tenant's own, where the database does what it documents.
pub delete_by_source-keep :
    {E W F : Type 0} (db : Database E W F) (plain : String → Bool)
    (rows : String → W → List ChunkRow) (holds : Params → ChunkRow → String → Bool)
    (faithful : IsFaithful db plain rows holds) (collection_per_tenant : Bool) (vector_size : ℕ)
    (tenant : TenantContext) (source_uri : String) (s s' : PgState W) (n : ℕ)
    → delete_by_source collection_per_tenant db vector_size tenant source_uri s ≡ (ok n, s')
    → keep
        (is_of collection_per_tenant tenant source_uri)
        (rows (quote_ident (table_name collection_per_tenant tenant)) s'.world)
      ≡ []
unfolding delete_by_source in_transaction
delete_by_source-keep db plain rows holds faithful collection_per_tenant vector_size tenant
      source_uri s s' n h =
    let name = table_name collection_per_tenant tenant in
    let ensured : Exec _ (PgState _) Unit =
      ensure_table collection_per_tenant db vector_size name in
    let conditions = delete_conditions collection_per_tenant in
    let params = delete_params tenant source_uri in
    let deleted = db.delete_chunks (quote_ident name) conditions params in
    elim (bind-Parts ensured (λ _. zoom world_lens deleted) {s = s} (settle-ok s.world _ h)) [
      | parts a t f l ↦
          ap (keep (is_of collection_per_tenant tenant source_uri)) (
            faithful.delete_removes (quote_ident name) conditions params t.world s'.world n
              (usable db plain rows holds faithful collection_per_tenant)
              (zoomed deleted {s = t} l))
          ∙ keep_none (is_of collection_per_tenant tenant source_uri)
              (λ row. every (holds params row) conditions) (rows (quote_ident name) t.world)
              (deleted_row db plain rows holds faithful collection_per_tenant tenant source_uri)
    ]
