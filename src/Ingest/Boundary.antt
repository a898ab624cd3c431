-- ===== src/Ingest/Boundary.antt =====
-- `sync_source` and `delete_source` of saap/ingest/pipeline.py: excluded classes and erased sources.
use ai_voice.Prelude.{
  ℕ, Bool, false, ◌≡◌, ◌≢◌, refl, ap, String, List, [], ◌∷◌, map, All, elem, string_eq, pair_eq,
  Bool-cases, inl, inr,
}
use ai_voice.Prelude.Dict.{erase, get_or, lookup-erase_self, lookup-erase_ne}
use ai_voice.Prelude.Exec.{Exec, Result-cases}
use ai_voice.Core.Types.{TenantContext, DataClass}
use ai_voice.Compliance.Chain.{Failure}
use ai_voice.Compliance.Platform.{Platform}
use ai_voice.Ingest.{
  DocumentChunk, IngestReport, IngestState, Lineage, select, finish_sync, sync_chunks,
  delete_source, clear_source, hashes_for_source,
}

get_or-erase_self : (k : String × String) (d : Lineage) → get_or k [] (erase k d) ≡ []
unfolding get_or
get_or-erase_self k d = rw (lookup-erase_self k d, get_or) refl

get_or-erase_ne :
    (k j : String × String) (d : Lineage) → k ≢ j → get_or j [] (erase k d) ≡ get_or j [] d
unfolding get_or
get_or-erase_ne k j d h = rw (lookup-erase_ne k j d h, get_or) refl

-- Erasing a source leaves it no hash, so everything in it counts as new; the hashes of every other
-- source and tenant are as before.
pub delete_source-hashes :
    {V : Type 0} (delete_by_source : TenantContext → String → V → ℕ × V) (tenant : TenantContext)
    (source_uri : String) (s : IngestState V) (other : String × String)
    → (tenant.tenant_id, source_uri) ≢ other
    → (let s' = (delete_source delete_by_source tenant source_uri s).1 in
        (hashes_for_source tenant.tenant_id source_uri s'.lineage ≡ [])
        × (hashes_for_source other.0 other.1 s'.lineage
            ≡ hashes_for_source other.0 other.1 s.lineage))
unfolding delete_source hashes_for_source clear_source
delete_source-hashes delete_by_source tenant source_uri s other h = (
  ap (map (λ (r : String × String). r.1))
      (get_or-erase_self (tenant.tenant_id, source_uri) s.lineage),
  ap (map (λ (r : String × String). r.1))
      (get_or-erase_ne (tenant.tenant_id, source_uri) other s.lineage h),
)

module _ (p : Platform) (excluded : DataClass → Bool) where
  abbrev pub Admitted : List DocumentChunk → Type 0
  Admitted cs = All (λ (c : DocumentChunk). excluded c.data_class ≡ false) cs

  select-Admitted :
      (existing : List String) (cs : List DocumentChunk)
      → Admitted
          (map (λ (x : DocumentChunk × String). x.0) (select p excluded existing cs).to_upsert)
  unfolding select
  select-Admitted existing [] = tt
  select-Admitted existing (c ∷ cs) = elim (Bool-cases (excluded c.data_class)) [
    | inl out ↦ rw (out) (select-Admitted existing cs)
    | inr kept ↦ elim (Bool-cases (elem (p.sha256 c.text) existing)) [
      | inl old ↦ rw (kept, old) (select-Admitted existing cs)
      | inr new ↦ rw (kept, new) (kept, select-Admitted existing cs)
    ]
  ]

  module _ {V : Type 0}
      (embed_and_upsert : TenantContext → List DocumentChunk → Exec Failure V (Unit {0})) where
    finish_keeps :
        (P : V → Type 0)
        (keeps : (t : TenantContext) (cs : List DocumentChunk) (v : V)
          → Admitted cs
          → P v
          → P (embed_and_upsert t cs v).1)
        (tenant : TenantContext) (source_uri : String) (report : IngestReport)
        (up : List (DocumentChunk × String)) (s : IngestState V)
        → Admitted (map (λ (x : DocumentChunk × String). x.0) up)
        → P s.vectors
        → P (finish_sync p excluded embed_and_upsert tenant source_uri report up s).1.vectors
    unfolding finish_sync
    finish_keeps P keeps tenant source_uri report [] s a h = h
    finish_keeps P keeps tenant source_uri report (c ∷ cs) s a h =
        let cs' = map (λ (x : DocumentChunk × String). x.0) (c ∷ cs) in
        elim (Result-cases (embed_and_upsert tenant cs' s.vectors).0) [
          | inl (done, e) ↦ rw (e, finish_sync) (keeps tenant cs' s.vectors a h)
          | inr (f, e) ↦ rw (e, finish_sync) (keeps tenant cs' s.vectors a h)
        ]

    -- Chunks of an excluded class are never embedded or stored: what the store keeps true as long as
    -- it is only given chunks of other classes, a synchronisation keeps true.
    pub sync_chunks_keeps :
        (P : V → Type 0)
        (keeps : (t : TenantContext) (cs : List DocumentChunk) (v : V)
          → Admitted cs
          → P v
          → P (embed_and_upsert t cs v).1)
        (tenant : TenantContext) (source_uri : String) (cs : List DocumentChunk) (s : IngestState V)
        → P s.vectors
        → P (sync_chunks p excluded embed_and_upsert tenant source_uri cs s).1.vectors
    unfolding sync_chunks
    sync_chunks_keeps P keeps tenant source_uri cs s h =
        finish_keeps P keeps tenant source_uri _ _ s
          (select-Admitted (hashes_for_source tenant.tenant_id source_uri s.lineage) cs) h
