-- ===== src/Pgvector/Store.antt =====
-- saap/plugins/memory/pgvector/__init__.py: the store over a Postgres database. The database is a
-- parameter, by the statements that the store sends: a statement's text is the template of the source
-- with the quoted table and the conditions in it. Any statement may fail, which undoes the transaction.
use ai_voice.Prelude.{ℕ, Bool, String, List, [], ◌∷◌, ◌++◌, map, elem, string_eq, if◌then◌else◌}
use ai_voice.Prelude.Dict.{Dict, insert}
use ai_voice.Prelude.Text.{append}
use ai_voice.Prelude.Exec.{Result, ok, err, Exec, pure, Lens, zoom, ◌>>=◌, ◌>>◌}
use ai_voice.Core.Types.{TenantContext}
use ai_voice.Ingest.{DocumentChunk}
use ai_voice.Qdrant.{class_text, read_class}
use ai_voice.Rag.{RetrievedChunk}
use ai_voice.Pgvector.Quoting.{quote_ident, table_name}

-- What a named parameter of a statement is bound to.
pub data Param : Type 0 where
  text : String → Param
  number : ℕ → Param

abbrev pub Params : Type 0
Params = Dict String Param

-- The fields of `DocumentChunk` that the pipeline sets, and its metadata as `json.dumps` of them.
pub record StoredChunk : Type 0 where
  pub chunk : DocumentChunk
  pub metadata : String

pub record ChunkRow : Type 0 where
  pub chunk_id : String
  pub tenant_id : String
  pub source_uri : String
  pub text : String
  pub data_class : String
  pub metadata : String

-- The statements: a table is named by its quoted text, conditions are the parts of a WHERE that AND joins,
-- a search yields rows with their scores, in the order of their distance, and a deletion counts rows.
pub record Database (E W F : Type 0) : Type 0 where
  pub create_extension : Exec E W Unit
  pub create_table : String → ℕ → Exec E W Unit
  pub insert_chunk : String → Params → Exec E W Unit
  pub select_chunks : String → List String → Params → Exec E W (List (ChunkRow × F))
  pub delete_chunks : String → List String → Params → Exec E W ℕ

pub record PgState (W : Type 0) : Type 0 where
  pub world : W
  pub ensured : List String

abbrev pub world_lens : {W : Type 0} → Lens (PgState W) W
world_lens = record { get = λ s. s.world; put = λ w s. record s { world = w } }

-- self._ensured.add(table_name)
unfoldable pub note_ensured : {E W : Type 0} → String → Exec E (PgState W) Unit
note_ensured name s = (ok tt, record s { ensured = name ∷ s.ensured })

-- `async with self._engine.begin()`: an exception undoes what the statements did; attributes keep their
-- values.
abbrev pub settle : {E W A : Type 0} → W → Result E A × PgState W → Result E A × PgState W
settle w (ok a, s) = (ok a, s)
settle w (err e, s) = (err e, record s { world = w })

unfoldable pub in_transaction : {E W A : Type 0} → Exec E (PgState W) A → Exec E (PgState W) A
in_transaction m s = settle s.world (m s)

-- `zip(chunks, vectors)`: as many vectors as chunks. A vector is the text of its list.
unfoldable pub chunk_params : TenantContext → StoredChunk → String → Params
chunk_params tenant stored vector =
    ("chunk_id", text stored.chunk.chunk_id)
    ∷ ("tenant_id", text tenant.tenant_id)
    ∷ ("source_uri", text stored.chunk.source_uri)
    ∷ ("text", text stored.chunk.text)
    ∷ ("data_class", text (class_text stored.chunk.data_class))
    ∷ ("metadata", text stored.metadata)
    ∷ ("embedding", text vector)
    ∷ []

abbrev pub tenant_condition : String
tenant_condition = "tenant_id = :tenant_id"

abbrev pub source_condition : String
source_condition = "source_uri = :source_uri"

unfoldable pub key_param : String → String
key_param key = append "filter_" (append key "_key")

unfoldable pub value_param : String → String
value_param key = append "filter_" (append key "_value")

unfoldable pub filter_condition : String → String
filter_condition key =
    append "metadata ->> :" (append (key_param key) (append " = :" (value_param key)))

-- The loop over `filters`, whose values stand here as `str` makes them.
unfoldable pub bind_filters : List (String × String) → Params → Params
bind_filters [] params = params
bind_filters ((key, value) ∷ filters) params =
    bind_filters filters
      (insert (value_param key) (text value) (insert (key_param key) (text key) params))

unfoldable pub search_params : TenantContext → String → ℕ → List (String × String) → Params
search_params tenant query_vector k filters = bind_filters filters (
    ("tenant_id", text tenant.tenant_id)
    ∷ ("query_vector", text query_vector)
    ∷ ("k", number k)
    ∷ [])

unfoldable pub delete_params : TenantContext → String → Params
delete_params tenant source_uri =
    ("source_uri", text source_uri) ∷ ("tenant_id", text tenant.tenant_id) ∷ []

-- A class is read as `upsert` writes it; the metadata of a chunk is not among the fields of a chunk here.
unfoldable pub chunk_of_row : {F : Type 0} → ChunkRow × F → RetrievedChunk F
chunk_of_row (row, score) = record {
  chunk = record {
    chunk_id = row.chunk_id;
    source_uri = row.source_uri;
    text = row.text;
    data_class = read_class row.data_class;
  };
  score = score;
}

module _ (collection_per_tenant : Bool) where
  unfoldable pub search_conditions : List (String × String) → List String
  search_conditions filters =
      (if collection_per_tenant then [] else tenant_condition ∷ [])
      ++ map (λ (f : String × String). filter_condition f.0) filters

  unfoldable pub delete_conditions : List String
  delete_conditions =
      if collection_per_tenant
      then source_condition ∷ []
      else source_condition ∷ tenant_condition ∷ []

  module _ {E W F : Type 0} (db : Database E W F) (vector_size : ℕ) where
    -- `_ensure_table`
    unfoldable pub ensure_table : String → Exec E (PgState W) Unit
    ensure_table name s =
        let created =
          (zoom world_lens db.create_extension
              >> zoom world_lens (db.create_table (quote_ident name) vector_size)
              >> note_ensured name)
            s in
        if elem name s.ensured then (ok tt, s) else created

    unfoldable pub insert_all :
        TenantContext → String → List (StoredChunk × String) → Exec E (PgState W) Unit
    insert_all tenant quoted [] = pure tt
    insert_all tenant quoted ((chunk, vector) ∷ more) =
        zoom world_lens (db.insert_chunk quoted (chunk_params tenant chunk vector))
        >> insert_all tenant quoted more

    unfoldable pub upsert : TenantContext → List (StoredChunk × String) → Exec E (PgState W) Unit
    upsert tenant chunks =
        let name = table_name collection_per_tenant tenant in
        in_transaction (ensure_table name >> insert_all tenant (quote_ident name) chunks)

    unfoldable pub found_rows :
        TenantContext
        → String
        → ℕ
        → List (String × String)
        → Exec E (PgState W) (List (ChunkRow × F))
    found_rows tenant query_vector k filters =
        let name = table_name collection_per_tenant tenant in
        in_transaction (
          ensure_table name
          >> zoom world_lens (
              db.select_chunks (quote_ident name) (search_conditions filters)
                (search_params tenant query_vector k filters)))

    unfoldable pub search :
        TenantContext
        → String
        → ℕ
        → List (String × String)
        → Exec E (PgState W) (List (RetrievedChunk F))
    search tenant query_vector k filters =
        found_rows tenant query_vector k filters >>= λ rows. pure (map chunk_of_row rows)

    unfoldable pub delete_by_source : TenantContext → String → Exec E (PgState W) ℕ
    delete_by_source tenant source_uri =
        let name = table_name collection_per_tenant tenant in
        in_transaction (
          ensure_table name
          >> zoom world_lens (
              db.delete_chunks (quote_ident name) delete_conditions
                (delete_params tenant source_uri)))
