-- ===== src/Ingest.antt =====
-- saap/ingest/pipeline.py: the classifier, the chunker, the lineage store and the pipeline. The
-- loader, the parser, the embedder and the vector store are parameters, and so is `str.split`.
pub mod PlainText
pub mod Chunks
pub mod Resync
pub mod Boundary
use ai_voice.Prelude.{
  ℕ, zero, suc, ◌+◌, ◌-◌, Bool, true, false, ◌&&◌, ◌||◌, not, String, Option, none, some, List, [],
  ◌∷◌, ◌++◌, map, any, ◌==◌, elem, take, drop, length, leb, string_eq, pair_eq, if◌then◌else◌,
}
use ai_voice.Prelude.Dict.{Dict, insert, erase, get_or}
use ai_voice.Prelude.Text.{append}
use ai_voice.Prelude.Exec.{Result, ok, err, Exec}
use ai_voice.Core.Types.{TenantContext, DataClass}
use ai_voice.Compliance.Chain.{Failure}
use ai_voice.Compliance.Platform.{Platform}
use ai_voice.Compliance.Pii.{DetectedEntity}

pub record ParsedBlock : Type 0 where
  pub text : String
  pub is_heading : Bool
  pub is_table : Bool

-- saap/core/memory.py; the fields that the pipeline sets.
pub record DocumentChunk : Type 0 where
  pub chunk_id : String
  pub source_uri : String
  pub text : String
  pub data_class : DataClass

pub record IngestReport : Type 0 where
  pub source_uri : String
  pub chunks_upserted : ℕ
  pub chunks_skipped_unchanged : ℕ
  pub chunks_excluded_spii : ℕ

-- `PresidioPIIClassifier.classify`, of the entities found
unfoldable pub classify : List DetectedEntity → DataClass
classify [] = DataClass.internal
classify (e ∷ es) =
    if any (λ (d : DetectedEntity). d.entity_type == "IN_AADHAAR" || d.entity_type == "IN_PAN")
      (e ∷ es)
    then DataClass.sensitive_personal
    else DataClass.personal

-- `StructureAwareChunker.__init__`
pub record ChunkerConfig : Type 0 where
  pub target_words : ℕ
  pub overlap_words : ℕ

-- " ".join(words)
unfoldable pub join_words : List String → String
join_words [] = ""
join_words (w ∷ []) = w
join_words (w ∷ v ∷ ws) = append w (append " " (join_words (v ∷ ws)))

module _ (cfg : ChunkerConfig) where
  -- The `while` loop: the chunks that it cuts off, and the words that stay. `none` means that the
  -- fuel ran out. The overlap is at most the target here; beyond it the slice would start at a
  -- negative index.
  unfoldable pub drain : ℕ → List String → Option (List (List String) × List String)
  drain zero words = none
  drain (suc fuel) words =
      let rest = drain fuel (drop (cfg.target_words - cfg.overlap_words) words) in
      if leb cfg.target_words (length words)
      then elim rest [
        | none ↦ none
        | some (chunks, left) ↦ some (take cfg.target_words words ∷ chunks, left)
      ]
      else some ([], words)

  -- The loop over the blocks, and the flush behind it: the word lists of the chunks.
  unfoldable pub chunk_loop :
      (String → List String) → List ParsedBlock → List String → Option (List (List String))
  chunk_loop split [] [] = some []
  chunk_loop split [] (w ∷ ws) = some ((w ∷ ws) ∷ [])
  chunk_loop split (b ∷ bs) current =
      let cut = b.is_heading && not (leb (length current) 0) in
      let words : List String = (if cut then [] else current) ++ split b.text in
      elim (drain (suc (length words)) words) [
        | none ↦ none
        | some (chunks, left) ↦ elim (chunk_loop split bs left) [
          | none ↦ none
          | some more ↦ some ((if cut then current ∷ chunks else chunks) ++ more)
        ]
      ]

  -- `_flush` of each word list, the ids drawn one after the other
  unfoldable pub flush_all :
      (ℕ → String) → (String → DataClass) → ℕ → String → List (List String) → List DocumentChunk
  flush_all uuid4 classifier drawn source_uri [] = []
  flush_all uuid4 classifier drawn source_uri (ws ∷ wss) =
      record {
        chunk_id = uuid4 drawn;
        source_uri = source_uri;
        text = join_words ws;
        data_class = classifier (join_words ws);
      }
      ∷ flush_all uuid4 classifier (suc drawn) source_uri wss

  unfoldable pub chunk :
      (ℕ → String)
      → (String → DataClass)
      → (String → List String)
      → String
      → List ParsedBlock
      → Option (List DocumentChunk)
  chunk uuid4 classifier split source_uri blocks = elim (chunk_loop split blocks []) [
    | none ↦ none
    | some wss ↦ some (flush_all uuid4 classifier 0 source_uri wss)
  ]

-- `InMemoryLineageStore._rows`: (tenant, source) -> [(chunk id, content hash)]
abbrev pub Lineage : Type 0
Lineage = Dict (String × String) (List (String × String))

unfoldable pub hashes_for_source : String → String → Lineage → List String
hashes_for_source tenant_id source_uri rows =
    map (λ (r : String × String). r.1) (get_or (tenant_id, source_uri) [] rows)

unfoldable pub record_row : String → String → String × String → Lineage → Lineage
record_row tenant_id source_uri row rows =
    insert (tenant_id, source_uri) (get_or (tenant_id, source_uri) [] rows ++ row ∷ []) rows

unfoldable pub record_rows : String → String → List (String × String) → Lineage → Lineage
record_rows tenant_id source_uri [] rows = rows
record_rows tenant_id source_uri (r ∷ rs) rows =
    record_rows tenant_id source_uri rs (record_row tenant_id source_uri r rows)

unfoldable pub clear_source : String → String → Lineage → Lineage
clear_source tenant_id source_uri rows = erase (tenant_id, source_uri) rows

-- What the loop over the chunks has sorted out. `content_hashes` is keyed by the ids of the chunks,
-- which are new, so each chunk is kept with its hash.
pub record Selection : Type 0 where
  pub to_upsert : List (DocumentChunk × String)
  pub excluded_spii : ℕ
  pub skipped_unchanged : ℕ

unfoldable pub default_excluded : DataClass → Bool
default_excluded DataClass.sensitive_personal = true
default_excluded _ = false

pub record IngestState (V : Type 0) : Type 0 where
  pub vectors : V
  pub lineage : Lineage

abbrev pub report_of : String → Selection → IngestReport
report_of source_uri found = record {
  source_uri = source_uri;
  chunks_upserted = length found.to_upsert;
  chunks_skipped_unchanged = found.skipped_unchanged;
  chunks_excluded_spii = found.excluded_spii;
}

module _ (p : Platform) (excluded : DataClass → Bool) where
  unfoldable pub select : List String → List DocumentChunk → Selection
  select existing [] = record { to_upsert = []; excluded_spii = 0; skipped_unchanged = 0 }
  select existing (c ∷ cs) =
      let rest = select existing cs in
      if excluded c.data_class
      then record rest { excluded_spii = rest.excluded_spii + 1 }
      else if elem (p.sha256 c.text) existing
      then record rest { skipped_unchanged = rest.skipped_unchanged + 1 }
      else record rest { to_upsert = (c, p.sha256 c.text) ∷ rest.to_upsert }

  module _ {V : Type 0}
      (embed_and_upsert : TenantContext → List DocumentChunk → Exec Failure V (Unit {0})) where
    -- The end of `sync_source`. Nothing is embedded where nothing is new, and a failure of the
    -- embedder or of the store leaves before the lineage is written.
    unfoldable pub finish_sync :
        TenantContext
        → String
        → IngestReport
        → List (DocumentChunk × String)
        → Exec Failure (IngestState V) IngestReport
    finish_sync tenant source_uri report [] s = (ok report, s)
    finish_sync tenant source_uri report (c ∷ cs) s =
        let (r, vectors) =
          embed_and_upsert tenant (map (λ (x : DocumentChunk × String). x.0) (c ∷ cs)) s.vectors in
        elim r [
          | err f ↦ (err f, record s { vectors = vectors })
          | ok _ ↦ (
            ok report,
            record {
              vectors = vectors;
              lineage =
                  record_rows tenant.tenant_id source_uri
                    (map (λ (x : DocumentChunk × String). (x.0.chunk_id, x.1)) (c ∷ cs)) s.lineage;
            },
          )
        ]

    -- `sync_source` behind the chunker.
    unfoldable pub sync_chunks :
        TenantContext → String → List DocumentChunk → Exec Failure (IngestState V) IngestReport
    sync_chunks tenant source_uri all_chunks s =
        let found = select (hashes_for_source tenant.tenant_id source_uri s.lineage) all_chunks in
        finish_sync tenant source_uri (report_of source_uri found) found.to_upsert s

unfoldable pub delete_source :
    {V : Type 0}
    → (TenantContext → String → V → ℕ × V)
    → TenantContext
    → String
    → IngestState V
    → ℕ × IngestState V
delete_source delete_by_source tenant source_uri s =
    let (deleted, vectors) = delete_by_source tenant source_uri s.vectors in
    (
      deleted,
      record { vectors = vectors; lineage = clear_source tenant.tenant_id source_uri s.lineage },
    )
