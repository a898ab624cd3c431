-- ===== src/Pgvector/Rollback.antt =====
-- A transaction of saap/plugins/memory/pgvector/__init__.py that is undone.
use ai_voice.Prelude.{ℕ, ◌≡◌, refl, Bool, false, String, List, ◌∷◌, elem, string_eq}
use ai_voice.Prelude.Dict.{beq_refl}
use ai_voice.Prelude.Exec.{ok, err}
use ai_voice.Core.Types.{TenantContext}
use ai_voice.Pgvector.Quoting.{quote_ident, table_name}
use ai_voice.Pgvector.Store.{
  StoredChunk, Database, PgState, chunk_params, in_transaction, ensure_table, note_ensured,
  insert_all, upsert,
}

-- Where the first upsert into a table creates it and its first row is refused, the transaction undoes the
-- table, but the store has noted it: it fails with the database's error, the database is as before, and
-- from then on the store takes the table to be there and does not create it again.
pub upsert_forgets_table :
    {E W F : Type 0} (collection_per_tenant : Bool) (db : Database E W F) (vector_size : ℕ)
    (tenant : TenantContext) (chunk : StoredChunk) (vector : String)
    (more : List (StoredChunk × String)) (s : PgState W) (extended created refused : W) (e : E)
    → elem (table_name collection_per_tenant tenant) s.ensured ≡ false
    → db.create_extension s.world ≡ (ok tt, extended)
    → db.create_table (quote_ident (table_name collection_per_tenant tenant)) vector_size extended
      ≡ (ok tt, created)
    → db.insert_chunk
        (quote_ident (table_name collection_per_tenant tenant))
        (chunk_params tenant chunk vector)
        created
      ≡ (err e, refused)
    → (upsert collection_per_tenant db vector_size tenant ((chunk, vector) ∷ more) s ≡ (
      err e,
      record { world = s.world; ensured = table_name collection_per_tenant tenant ∷ s.ensured },
    ))
      × (ensure_table collection_per_tenant db vector_size
            (table_name collection_per_tenant tenant)
            (upsert collection_per_tenant db vector_size tenant ((chunk, vector) ∷ more) s).1
          ≡ (
            ok tt,
            (upsert collection_per_tenant db vector_size tenant ((chunk, vector) ∷ more) s).1,
          ))
unfolding upsert ensure_table note_ensured insert_all in_transaction
upsert_forgets_table collection_per_tenant db vector_size tenant chunk vector more s extended
      created refused e fresh h k l =
    (rw (fresh, h, k, l) refl, rw (fresh, h, k, l) (rw (beq_refl) refl))
