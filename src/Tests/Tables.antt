-- ===== src/Tests/Tables.antt =====
-- A Postgres table that is a list of rows, and one that takes no row.
use ai_voice.Prelude.{
  ℕ, ◌≡◌, refl, sym, ap, subst, some, Bool, true, false, not, String, List, [], ◌∷◌, All, keep, map,
  every, length, ◌==◌, string_eq, texts_differ, Bool-cases, inl, inr, if◌then◌else◌,
}
use ai_voice.Prelude.Dict.{lookup, insert}
use ai_voice.Prelude.Exec.{Result, ok, err}
use ai_voice.Prelude.Text.{append}
use ai_voice.Core.Types.{DataClass}
use ai_voice.Pgvector.Quoting.{shared_table, quote_ident, table_name}
use ai_voice.Pgvector.Names.{read_ident, read_ident-quote_ident}
use ai_voice.Pgvector.Store.{
  Params, ChunkRow, StoredChunk, Database, PgState, tenant_condition, source_condition,
  search_params, found_rows, delete_by_source, delete_conditions, delete_params, upsert,
  ensure_table, in_transaction, search_conditions, bind_filters, key_param, value_param,
  filter_condition,
}
use ai_voice.Pgvector.Isolation.{is_bound_text, IsFaithful, belongs, shared_table_isolates}
use ai_voice.Pgvector.Erasure.{is_of, delete_by_source-keep}
use ai_voice.Pgvector.Rollback.{upsert_forgets_table}
use ai_voice.Tests.Fixtures.{clinic, agency}

-- Conditions on metadata hold of every row here.
abbrev reads : Params → ChunkRow → String → Bool
reads params row condition =
    if condition == tenant_condition
    then is_bound_text row.tenant_id (lookup "tenant_id" params)
    else if condition == source_condition
    then is_bound_text row.source_uri (lookup "source_uri" params)
    else true

abbrev near : ChunkRow → ChunkRow × ℕ
near row = (row, 0)

abbrev one_table : Database String (List ChunkRow) ℕ
one_table = record {
  create_extension = λ w. (ok tt, w);
  create_table = λ table size w. (ok tt, w);
  insert_chunk = λ table params w. (ok tt, w);
  select_chunks = λ table conditions params w.
      (ok (map near (keep (λ row. every (reads params row) conditions) w)), w);
  delete_chunks = λ table conditions params w. (
    ok (length (keep (λ row. every (reads params row) conditions) w)),
    keep (λ row. not (every (reads params row) conditions)) w,
  );
}

near_match :
    (params : Params) (conditions : List String) (w : List ChunkRow)
    → All
        (λ (f : ChunkRow × ℕ). every (reads params f.0) conditions ≡ true)
        (map near (keep (λ row. every (reads params row) conditions) w))
near_match params conditions [] = tt
near_match params conditions (row ∷ w) = elim (Bool-cases (every (reads params row) conditions)) [
  | inl m ↦ rw (m) (m, near_match params conditions w)
  | inr m ↦ rw (m) (near_match params conditions w)
]

-- What a call returned, of the result that it had.
abbrev returned : {A : Type 0} → A → Result String A × List ChunkRow → A
returned a (ok b, w) = b
returned a (err e, w) = a

one_table-IsFaithful : IsFaithful one_table (λ key. true) (λ table w. w) reads
one_table-IsFaithful = record {
  tenant_holds = λ params row. refl;
  source_holds = λ params row. refl;
  select_matches = λ table conditions params w w' found usable h.
      subst (All (λ (f : ChunkRow × ℕ). every (reads params f.0) conditions ≡ true))
        (ap (returned []) h) (near_match params conditions w);
  delete_removes = λ table conditions params w w' n usable h. sym (ap (λ p. p.1) h);
  extension_keeps = λ table w w' h. sym (ap (λ p. p.1) h);
  create_keeps = λ table created size w w' h. sym (ap (λ p. p.1) h);
}

abbrev row_for : String → String → ChunkRow
row_for chunk_id tenant_id = record {
  chunk_id = chunk_id;
  tenant_id = tenant_id;
  source_uri = "a";
  text = "t";
  data_class = "internal";
  metadata = "{}";
}

abbrev two_rows : PgState (List ChunkRow)
two_rows = record {
  world = row_for "1" "clinic" ∷ row_for "2" "agency" ∷ [];
  ensured = shared_table ∷ [];
}

shared_table_isolates_example :
    All (λ (f : ChunkRow × ℕ). belongs "clinic" f.0 ≡ true) (near (row_for "1" "clinic") ∷ [])
    × (keep (belongs "agency") (delete_by_source false one_table 8 clinic "a" two_rows).1.world
        ≡ keep (belongs "agency") two_rows.world)
unfolding found_rows in_transaction ensure_table table_name search_conditions lookup search_params
    bind_filters insert key_param append value_param filter_condition
shared_table_isolates_example =
    shared_table_isolates one_table (λ key. true) (λ table w. w) reads one_table-IsFaithful 8 clinic
      agency "[0.1]" 5 (("lang", "en") ∷ []) "a" two_rows two_rows
      (near (row_for "1" "clinic") ∷ []) (texts_differ "clinic" "agency" refl) (refl, tt) refl

read_ident-quote_ident_example :
    read_ident (append (quote_ident "a\"; DROP") " (chunk_id") ≡ some ("a\"; DROP", " (chunk_id")
read_ident-quote_ident_example = read_ident-quote_ident "a\"; DROP" " (chunk_id" refl

abbrev clinic_gone : PgState (List ChunkRow)
clinic_gone = record two_rows { world = row_for "2" "agency" ∷ [] }

delete_by_source-keep_example : keep (is_of false clinic "a") clinic_gone.world ≡ []
unfolding delete_by_source in_transaction ensure_table table_name delete_conditions lookup
    delete_params
delete_by_source-keep_example =
    delete_by_source-keep one_table (λ key. true) (λ table w. w) reads one_table-IsFaithful false 8
      clinic "a" two_rows clinic_gone 1 refl

-- Postgres without room for a row: the table that the transaction creates goes with it.
abbrev full_disk : Database String (List String) ℕ
full_disk = record {
  create_extension = λ w. (ok tt, w);
  create_table = λ table size w. (ok tt, table ∷ w);
  insert_chunk = λ table params w. (err "disk full", w);
  select_chunks = λ table conditions params w. (ok [], w);
  delete_chunks = λ table conditions params w. (ok 0, w);
}

abbrev page : StoredChunk
page = record {
  chunk = record { chunk_id = "1"; source_uri = "a"; text = "t"; data_class = DataClass.internal };
  metadata = "{}";
}

abbrev empty_disk : PgState (List String)
empty_disk = record { world = []; ensured = [] }

upsert_forgets_table_example :
    (upsert false full_disk 8 clinic ((page, "[0.1]") ∷ []) empty_disk
      ≡ (err "disk full", record { world = []; ensured = shared_table ∷ [] }))
    × (ensure_table false full_disk 8 shared_table
          (upsert false full_disk 8 clinic ((page, "[0.1]") ∷ []) empty_disk).1
        ≡ (ok tt, (upsert false full_disk 8 clinic ((page, "[0.1]") ∷ []) empty_disk).1))
unfolding table_name
upsert_forgets_table_example =
    upsert_forgets_table false full_disk 8 clinic page "[0.1]" [] empty_disk []
      (quote_ident shared_table ∷ []) (quote_ident shared_table ∷ []) "disk full" refl refl refl
      refl
