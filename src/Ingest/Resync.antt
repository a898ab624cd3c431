-- ===== src/Ingest/Resync.antt =====
-- `sync_source` of saap/ingest/pipeline.py, called twice.
use mathlib.Core.List.{map-append}
use ai_voice.Prelude.{
  Bool, true, ◌≡◌, refl, ap, elem-append, String, List, [], ◌∷◌, ◌++◌, map, elem, arith, string_eq,
  pair_eq, str_eq_iff, ◌||◌, Bool-cases, inl, inr,
}
use ai_voice.Prelude.Dict.{insert, get_or, lookup-insert_self}
use ai_voice.Prelude.Exec.{ok, Exec, Result-cases}
use ai_voice.Core.Types.{TenantContext, DataClass}
use ai_voice.Compliance.Chain.{Failure}
use ai_voice.Compliance.Platform.{Platform}
use ai_voice.Ingest.{
  DocumentChunk, IngestReport, IngestState, Lineage, report_of, select, finish_sync, sync_chunks,
  hashes_for_source, record_row, record_rows,
}

get_or-insert_self :
    (k : String × String) (v : List (String × String)) (d : Lineage)
    → get_or k [] (insert k v d) ≡ v
unfolding get_or
get_or-insert_self k v d = rw (lookup-insert_self k v d, get_or) refl

hashes-record_row :
    (t u : String) (r : String × String) (rows : Lineage)
    → hashes_for_source t u (record_row t u r rows) ≡ hashes_for_source t u rows ++ r.1 ∷ []
unfolding hashes_for_source record_row
hashes-record_row t u r rows =
    rw (get_or-insert_self (t, u) (get_or (t, u) [] rows ++ r ∷ []) rows)
      (map-append (λ (x : String × String). x.1) (get_or (t, u) [] rows) (r ∷ []))

hashes-record_rows :
    (t u : String) (rs : List (String × String)) (rows : Lineage) (h : String)
    → elem h (hashes_for_source t u rows) || elem h (map (λ (r : String × String). r.1) rs) ≡ true
    → elem h (hashes_for_source t u (record_rows t u rs rows)) ≡ true
unfolding record_rows
hashes-record_rows t u [] rows h k = ground arith
hashes-record_rows t u (r ∷ rs) rows h k = hashes-record_rows t u rs (record_row t u r rows) h (
    rw (hashes-record_row t u r rows)
      (ground (arith, elem-append h (hashes_for_source t u rows) (r.1 ∷ []))))

hashes-pairs :
    (up : List (DocumentChunk × String))
    → map
        (λ (r : String × String). r.1)
        (map (λ (x : DocumentChunk × String). (x.0.chunk_id, x.1)) up)
      ≡ map (λ (x : DocumentChunk × String). x.1) up
hashes-pairs [] = refl
hashes-pairs (x ∷ up) = ap (λ l. x.1 ∷ l) (hashes-pairs up)

module _ (p : Platform) (excluded : DataClass → Bool) where
  module _ {V : Type 0}
      (embed_and_upsert : TenantContext → List DocumentChunk → Exec Failure V (Unit {0})) where
    -- The hashes that a source has after a synchronisation that went through.
    finish_sync-hashes :
        (tenant : TenantContext) (source_uri : String) (report done : IngestReport)
        (up : List (DocumentChunk × String)) (s : IngestState V) (h : String)
        → (finish_sync p excluded embed_and_upsert tenant source_uri report up s).0 ≡ ok done
        → elem h (hashes_for_source tenant.tenant_id source_uri s.lineage)
            || elem h (map (λ (x : DocumentChunk × String). x.1) up)
          ≡ true
        → elem h (
            hashes_for_source tenant.tenant_id source_uri
              (finish_sync p excluded embed_and_upsert tenant source_uri report up s).1.lineage)
          ≡ true
    unfolding finish_sync
    finish_sync-hashes tenant source_uri report done [] s h k l = ground arith
    finish_sync-hashes tenant source_uri report done (c ∷ cs) s h k l =
        let cs' = map (λ (x : DocumentChunk × String). x.0) (c ∷ cs) in
        elim (Result-cases (embed_and_upsert tenant cs' s.vectors).0) [
          | inl (u, e) ↦
              rw (e, finish_sync)
                (hashes-record_rows tenant.tenant_id source_uri
                  (map (λ (x : DocumentChunk × String). (x.0.chunk_id, x.1)) (c ∷ cs)) s.lineage h
                  (rw (hashes-pairs cs) l))
          | inr (f, e) ↦ absurd (ground (arith, e))
        ]

  -- Chunks with the same texts and classes, under new ids.
  abbrev pub renamed : (DocumentChunk → String) → List DocumentChunk → List DocumentChunk
  renamed new_id cs = map (λ (c : DocumentChunk). record c { chunk_id = new_id c }) cs

  select-renamed :
      (new_id : DocumentChunk → String) (existing later : List String) (cs : List DocumentChunk)
      → ((h : String)
          → elem h existing
              || elem h (
                  map
                    (λ (x : DocumentChunk × String). x.1)
                    (select p excluded existing cs).to_upsert)
            ≡ true
          → elem h later ≡ true)
      → (select p excluded later (renamed new_id cs)).to_upsert ≡ []
  unfolding select
  select-renamed new_id existing later [] k = refl
  select-renamed new_id existing later (c ∷ cs) k = elim (Bool-cases (excluded c.data_class)) [
    | inl out ↦ rw (out) (select-renamed new_id existing later cs (λ h l. k h (rw (out) l)))
    | inr kept ↦ elim (Bool-cases (elem (p.sha256 c.text) existing)) [
      | inl old ↦
          rw (kept, k (p.sha256 c.text) (rw (old) refl))
            (select-renamed new_id existing later cs (λ h l. k h (rw (kept, old) l)))
      | inr new ↦
          let here =
            k (p.sha256 c.text)
              (rw (kept, new) (ground (arith, str_eq_iff (p.sha256 c.text) (p.sha256 c.text)))) in
          rw (kept, here)
            (select-renamed new_id existing later cs
              (λ h l. k h (rw (kept, new) (ground (arith, l)))))
    ]
  ]

  module _ {V : Type 0}
      (embed_and_upsert : TenantContext → List DocumentChunk → Exec Failure V (Unit {0})) where
    finish_sync-nothing :
        (tenant : TenantContext) (source_uri : String) (report : IngestReport)
        (up : List (DocumentChunk × String)) (s : IngestState V)
        → up ≡ []
        → finish_sync p excluded embed_and_upsert tenant source_uri report up s ≡ (ok report, s)
    unfolding finish_sync
    finish_sync-nothing tenant source_uri report up s h = rw (h, finish_sync) refl

    -- Synchronising a source again, with the same texts cut into the same chunks under new ids,
    -- upserts nothing, embeds nothing and changes nothing, where the first synchronisation went
    -- through.
    pub sync_chunks-again :
        (tenant : TenantContext) (source_uri : String) (cs : List DocumentChunk) (s : IngestState V)
        (report : IngestReport) (new_id : DocumentChunk → String)
        → (sync_chunks p excluded embed_and_upsert tenant source_uri cs s).0 ≡ ok report
        → (let s' = (sync_chunks p excluded embed_and_upsert tenant source_uri cs s).1 in
            (again : IngestReport) × (sync_chunks p excluded embed_and_upsert tenant source_uri
                (renamed new_id cs)
                s'
              ≡ (ok again, s'))
            × (again.chunks_upserted ≡ 0))
    unfolding sync_chunks
    sync_chunks-again tenant source_uri cs s report new_id h =
        let existing = hashes_for_source tenant.tenant_id source_uri s.lineage in
        let s' = (sync_chunks p excluded embed_and_upsert tenant source_uri cs s).1 in
        let none_new : (select p excluded (hashes_for_source tenant.tenant_id source_uri s'.lineage)
              (renamed new_id cs)).to_upsert
            ≡ [] =
          select-renamed new_id existing (hashes_for_source tenant.tenant_id source_uri s'.lineage)
            cs
            (λ x l.
              finish_sync-hashes embed_and_upsert tenant source_uri _ report
                (select p excluded existing cs).to_upsert s x h l) in
        (
          report_of source_uri (
              select p excluded (hashes_for_source tenant.tenant_id source_uri s'.lineage)
                (renamed new_id cs)),
          finish_sync-nothing tenant source_uri _ _ s' none_new,
          rw (none_new) refl,
        )
