-- ===== src/Pgvector/Isolation.antt =====
-- Tenants in the shared table of saap/plugins/memory/pgvector/__init__.py.
use ai_voice.Prelude.{
  ℕ, ◌≡◌, ◌≢◌, refl, ap, sym, ◌∙◌, Bool, true, false, not, inl, inr, String, Option, some, List, [],
  ◌∷◌, map, All, All-map, keep, keep-keep, every, elem, ◌==◌, string_eq, arith, Bool-cases,
}
use ai_voice.Prelude.Dict.{lookup}
use ai_voice.Prelude.Text.{starts_with}
use ai_voice.Prelude.Exec.{ok, Exec, zoom, ◌>>◌, parts, bind-Parts}
use ai_voice.Core.Types.{TenantContext}
use ai_voice.Pgvector.Quoting.{shared_table, quote_ident, table_name}
use ai_voice.Pgvector.Store.{
  Param, text, Params, ChunkRow, Database, PgState, world_lens, in_transaction, tenant_condition,
  source_condition, filter_condition, search_params, delete_params, search_conditions,
  delete_conditions, ensure_table, note_ensured, found_rows, delete_by_source,
}
use ai_voice.Pgvector.Transactions.{settle-ok, settle_world, zoomed}
use ai_voice.Pgvector.Bindings.{bind_filters-other}

abbrev pub is_bound_text : String → Option Param → Bool
is_bound_text t (some (text u)) = t == u
is_bound_text t _ = false

-- The conditions of the statements, with keys that a caller may use.
pub data IsCondition (plain : String → Bool) : String → Type 0 where
  of_tenant : IsCondition plain tenant_condition
  of_source : IsCondition plain source_condition
  of_filter : (key : String) → plain key ≡ true → IsCondition plain (filter_condition key)

-- What the database documents of the statements, where `holds` is its reading of a condition under the
-- bound parameters: a search finds rows on which all conditions hold, deletion removes the rows of the
-- table on which they do, and to create what may be there already changes no rows. `plain` tells the keys
-- that may stand in the name of a parameter.
pub record IsFaithful {E W F : Type 0} (db : Database E W F) (plain : String → Bool)
    (rows : String → W → List ChunkRow) (holds : Params → ChunkRow → String → Bool) : Type 0 where
  pub tenant_holds :
      (params : Params) (row : ChunkRow)
      → holds params row tenant_condition ≡ is_bound_text row.tenant_id (lookup "tenant_id" params)
  pub source_holds :
      (params : Params) (row : ChunkRow)
      → holds params row source_condition
        ≡ is_bound_text row.source_uri (lookup "source_uri" params)
  pub select_matches :
      (table : String) (conditions : List String) (params : Params) (w w' : W)
      (found : List (ChunkRow × F))
      → All (IsCondition plain) conditions
      → db.select_chunks table conditions params w ≡ (ok found, w')
      → All (λ (f : ChunkRow × F). every (holds params f.0) conditions ≡ true) found
  pub delete_removes :
      (table : String) (conditions : List String) (params : Params) (w w' : W) (n : ℕ)
      → All (IsCondition plain) conditions
      → db.delete_chunks table conditions params w ≡ (ok n, w')
      → rows table w' ≡ keep (λ row. not (every (holds params row) conditions)) (rows table w)
  pub extension_keeps :
      (table : String) (w w' : W)
      → db.create_extension w ≡ (ok tt, w')
      → rows table w' ≡ rows table w
  pub create_keeps :
      (table created : String) (size : ℕ) (w w' : W)
      → db.create_table created size w ≡ (ok tt, w')
      → rows table w' ≡ rows table w

abbrev pub belongs : String → ChunkRow → Bool
belongs tenant_id row = row.tenant_id == tenant_id

conditions_of :
    (plain : String → Bool) (filters : List (String × String))
    → All (λ (f : String × String). plain f.0 ≡ true) filters
    → All (IsCondition plain) (map (λ (f : String × String). filter_condition f.0) filters)
conditions_of plain [] h = tt
conditions_of plain ((key, value) ∷ filters) h =
    (of_filter key h.0, conditions_of plain filters h.1)

module _ {E W F : Type 0} (db : Database E W F) (plain : String → Bool)
    (rows : String → W → List ChunkRow) (holds : Params → ChunkRow → String → Bool)
    (faithful : IsFaithful db plain rows holds) (vector_size : ℕ) where
  same_rows : (table : String) {s t : PgState W} → s ≡ t → rows table s.world ≡ rows table t.world
  same_rows table e = ap (λ u. rows table u.world) e

  created_rows :
      (name table : String) (s s' : PgState W)
      → (zoom world_lens db.create_extension
            >> zoom world_lens (db.create_table (quote_ident name) vector_size)
            >> note_ensured name)
          s
        ≡ (ok tt, s')
      → rows table s'.world ≡ rows table s.world
  unfolding note_ensured
  created_rows name table s s' h =
      let extension : Exec E (PgState W) Unit = zoom world_lens db.create_extension in
      let creation : Exec E (PgState W) Unit =
        zoom world_lens (db.create_table (quote_ident name) vector_size) in
      elim (bind-Parts (extension >> creation) (λ _. note_ensured name) {s = s} h) [
        | parts a t e k ↦ elim (bind-Parts extension (λ _. creation) {s = s} e) [
          | parts b u f l ↦
              same_rows table (sym (ap (λ p. p.1) k))
              ∙ faithful.create_keeps table (quote_ident name) vector_size u.world t.world
                  (zoomed (db.create_table (quote_ident name) vector_size) {s = u} l)
              ∙ faithful.extension_keeps table s.world u.world
                  (zoomed db.create_extension {s = s} f)
        ]
      ]

  pub ensure_table-rows :
      (name table : String) (s s' : PgState W)
      → ensure_table false db vector_size name s ≡ (ok tt, s')
      → rows table s'.world ≡ rows table s.world
  unfolding ensure_table
  ensure_table-rows name table s s' h = elim (Bool-cases (elem name s.ensured)) [
    | inl known ↦ same_rows table (sym (ap (λ p. p.1) (rw (known) at h)))
    | inr fresh ↦ created_rows name table s s' (rw (fresh) at h)
  ]

  -- A row that another tenant's deletion removes is not one of this tenant's.
  kept_row :
      (tenant other : TenantContext) (source_uri : String) (row : ChunkRow)
      → tenant.tenant_id ≢ other.tenant_id
      → belongs other.tenant_id row ≡ true
      → not (every (holds (delete_params tenant source_uri) row) (delete_conditions false)) ≡ true
  unfolding delete_params delete_conditions lookup
  kept_row tenant other source_uri row h k = ground (
    arith,
    faithful.tenant_holds (delete_params tenant source_uri) row,
    string_eq.beq_iff row.tenant_id tenant.tenant_id,
    string_eq.beq_iff row.tenant_id other.tenant_id,
    h,
  )

  first_condition :
      (tenant : TenantContext) (query_vector : String) (k : ℕ) (filters : List (String × String))
      (row : ChunkRow) (more : List String)
      → every (holds (search_params tenant query_vector k filters) row) (tenant_condition ∷ more)
        ≡ true
      → belongs tenant.tenant_id row ≡ true
  unfolding search_params lookup starts_with
  first_condition tenant query_vector k filters row more h =
      let params = search_params tenant query_vector k filters in
      let bound : lookup "tenant_id" params ≡ some (text tenant.tenant_id) =
        bind_filters-other "tenant_id" filters _ refl in
      let first : holds params row tenant_condition ≡ true = ground (arith, h) in
      sym (ap (is_bound_text row.tenant_id) bound) ∙ sym (faithful.tenant_holds params row) ∙ first

  found_belong :
      (tenant : TenantContext) (query_vector : String) (k : ℕ) (filters : List (String × String))
      (s s' : PgState W) (found : List (ChunkRow × F))
      → All (λ (f : String × String). plain f.0 ≡ true) filters
      → found_rows false db vector_size tenant query_vector k filters s ≡ (ok found, s')
      → All (λ (f : ChunkRow × F). belongs tenant.tenant_id f.0 ≡ true) found
  unfolding found_rows in_transaction table_name search_conditions
  found_belong tenant query_vector k filters s s' found usable h =
      let ensured : Exec E (PgState W) Unit = ensure_table false db vector_size shared_table in
      let conditions = search_conditions false filters in
      let params = search_params tenant query_vector k filters in
      let selected = db.select_chunks (quote_ident shared_table) conditions params in
      elim (bind-Parts ensured (λ _. zoom world_lens selected) {s = s} (settle-ok s.world _ h)) [
        | parts a t e l ↦
            All-map (λ (f : ChunkRow × F). every (holds params f.0) conditions ≡ true)
              (λ (f : ChunkRow × F). belongs tenant.tenant_id f.0 ≡ true) found
              (λ f m. first_condition tenant query_vector k filters f.0 _ m)
              (faithful.select_matches (quote_ident shared_table) conditions params t.world s'.world
                found (of_tenant, conditions_of plain filters usable) (zoomed selected {s = t} l))
      ]

  deleted_keeps :
      (tenant other : TenantContext) (source_uri : String) (s : PgState W)
      → tenant.tenant_id ≢ other.tenant_id
      → keep (belongs other.tenant_id) (
          rows
            (quote_ident shared_table)
            (delete_by_source false db vector_size tenant source_uri s).1.world)
        ≡ keep (belongs other.tenant_id) (rows (quote_ident shared_table) s.world)
  unfolding delete_by_source in_transaction table_name delete_conditions
  deleted_keeps tenant other source_uri s h =
      let table = quote_ident shared_table in
      let ensured : Exec E (PgState W) Unit = ensure_table false db vector_size shared_table in
      let params = delete_params tenant source_uri in
      let deleted = db.delete_chunks table (delete_conditions false) params in
      settle_world
        (λ w.
          keep (belongs other.tenant_id) (rows table w)
          ≡ keep (belongs other.tenant_id) (rows table s.world))
        s.world ((ensured >> zoom world_lens deleted) s) refl
        (λ n s' e. elim (bind-Parts ensured (λ _. zoom world_lens deleted) {s = s} e) [
          | parts a t f l ↦
              ap (keep (belongs other.tenant_id)) (
                faithful.delete_removes table (delete_conditions false) params t.world s'.world n
                  (of_source, (of_tenant, tt)) (zoomed deleted {s = t} l))
              ∙ keep-keep (belongs other.tenant_id)
                  (λ row. not (every (holds params row) (delete_conditions false)))
                  (rows table t.world) (λ row m. kept_row tenant other source_uri row h m)
              ∙ ap (keep (belongs other.tenant_id)) (ensure_table-rows shared_table table s t f)
        ])

-- In the shared table, a search that succeeds, with any filters whose keys may stand in a parameter's name,
-- finds only rows of its own tenant; and whatever source a tenant deletes, whether that succeeds or fails,
-- the rows of every other tenant stay, where the database does what it documents.
pub shared_table_isolates :
    {E W F : Type 0} (db : Database E W F) (plain : String → Bool)
    (rows : String → W → List ChunkRow) (holds : Params → ChunkRow → String → Bool)
    (faithful : IsFaithful db plain rows holds) (vector_size : ℕ) (tenant other : TenantContext)
    (query_vector : String) (k : ℕ) (filters : List (String × String)) (source_uri : String)
    (s s' : PgState W) (found : List (ChunkRow × F))
    → tenant.tenant_id ≢ other.tenant_id
    → All (λ (f : String × String). plain f.0 ≡ true) filters
    → found_rows false db vector_size tenant query_vector k filters s ≡ (ok found, s')
    → All (λ (f : ChunkRow × F). belongs tenant.tenant_id f.0 ≡ true) found
      × (keep (belongs other.tenant_id) (
            rows
              (quote_ident shared_table)
              (delete_by_source false db vector_size tenant source_uri s).1.world)
          ≡ keep (belongs other.tenant_id) (rows (quote_ident shared_table) s.world))
shared_table_isolates db plain rows holds faithful vector_size tenant other query_vector k filters
      source_uri s s' found h usable e =
    (
      found_belong db plain rows holds faithful vector_size tenant query_vector k filters s s' found
          usable e,
      deleted_keeps db plain rows holds faithful vector_size tenant other source_uri s h,
    )
