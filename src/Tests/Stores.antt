-- ===== src/Tests/Stores.antt =====
-- An erasure and an ingestion at concrete inputs.
use ai_voice.Prelude.{
  ℕ, ◌≡◌, refl, true, false, String, none, some, List, [], ◌∷◌, ◌++◌, All, arith, string_eq,
}
use ai_voice.Prelude.Dict.{lookup, get_or}
use ai_voice.Prelude.Text.{append}
use ai_voice.Prelude.Exec.{ok, Exec, Result}
use ai_voice.Core.Types.{TenantContext, DataClass}
use ai_voice.Compliance.Chain.{Failure}
use ai_voice.Compliance.Audit.{empty_store, last_hash, verify_chain, verify_rows, rows_for}
use ai_voice.Compliance.Pii.{resolve}
use ai_voice.Compliance.Erasure.{
  Signing, ErasureState, ErasureCertificate, erase, verify_certificate,
}
use ai_voice.Compliance.Erasure.Proof.{erase-proof}
use ai_voice.Ingest.{
  ChunkerConfig, DocumentChunk, IngestReport, IngestState, drain, default_excluded, sync_chunks,
  finish_sync, hashes_for_source, select,
}
use ai_voice.Ingest.Chunks.{Covers, drain-Covers}
use ai_voice.Ingest.Resync.{renamed, sync_chunks-again}
use ai_voice.Tests.Fixtures.{plain, clinic, empty_vault}

abbrev signing : Signing
signing = record {
  hmac = λ key payload. append key payload;
  payload_bytes = λ body. append body.source_uri body.audit_row_hash;
  key = "k";
}

-- A vector store that counts what it holds of one source.
abbrev deletes : TenantContext → String → Exec String ℕ ℕ
deletes tenant source_uri v = (ok v, 0)

abbrev before_erasure : ErasureState ℕ
before_erasure = record { vectors = 4; vault = empty_vault; audit = empty_store; issued = 0 }

erase-proof_example :
    (certificate : ErasureCertificate) × ((erase plain signing deletes clinic "a.pdf" "T"
        before_erasure).0
      ≡ ok certificate)
    × (let s' = (erase plain signing deletes clinic "a.pdf" "T" before_erasure).1 in
        (verify_certificate signing certificate ≡ true)
        × (certificate.body.chunks_deleted ≡ 4)
        × (last_hash s'.audit clinic.tenant_id ≡ certificate.body.audit_row_hash)
        × (verify_chain plain s'.audit clinic.tenant_id ≡ ok tt)
        × (resolve plain s'.vault "<A_1>" ≡ ok none))
erase-proof_example =
    erase-proof plain signing deletes clinic "a.pdf" "T" before_erasure "<A_1>" 4 0 refl
      (unfold verify_chain verify_rows rows_for get_or lookup in refl)

abbrev three_words : ChunkerConfig
three_words = record { target_words = 3; overlap_words = 1 }

drain-Covers_example :
    (chunks : List (List String)) × (left : List String) × (drain three_words 6
        ("a" ∷ "b" ∷ "c" ∷ "d" ∷ "e" ∷ [])
      ≡ some (chunks, left))
    × Covers three_words ("a" ∷ "b" ∷ "c" ∷ "d" ∷ "e" ∷ []) chunks left
drain-Covers_example =
    drain-Covers three_words 6 ("a" ∷ "b" ∷ "c" ∷ "d" ∷ "e" ∷ []) (omega arith) (omega arith)

-- A vector store that lists the chunks it was given.
abbrev keeps_list :
    TenantContext → List DocumentChunk → Exec Failure (List DocumentChunk) (Unit {0})
keeps_list tenant cs v = (ok tt, v ++ cs)

abbrev page : DocumentChunk
page = record {
  chunk_id = "1";
  source_uri = "a.pdf";
  text = "hours";
  data_class = DataClass.internal;
}

abbrev secret : DocumentChunk
secret = record page { chunk_id = "2"; data_class = DataClass.sensitive_personal }

abbrev nothing_ingested : IngestState (List DocumentChunk)
nothing_ingested = record { vectors = []; lineage = [] }

abbrev first_sync : Result Failure IngestReport × IngestState (List DocumentChunk)
first_sync =
    sync_chunks plain default_excluded keeps_list clinic "a.pdf" (page ∷ secret ∷ [])
      nothing_ingested

sync_chunks-again_example :
    (again : IngestReport) × (sync_chunks plain default_excluded keeps_list clinic "a.pdf"
        (renamed plain default_excluded (λ c. "x") (page ∷ secret ∷ []))
        first_sync.1
      ≡ (ok again, first_sync.1))
    × (again.chunks_upserted ≡ 0)
sync_chunks-again_example =
    sync_chunks-again plain default_excluded keeps_list clinic "a.pdf" (page ∷ secret ∷ [])
      nothing_ingested
      (record {
        source_uri = "a.pdf";
        chunks_upserted = 1;
        chunks_skipped_unchanged = 0;
        chunks_excluded_spii = 1;
      })
      (λ c. "x")
      (unfold sync_chunks finish_sync select hashes_for_source get_or lookup default_excluded in
        refl)

abbrev IsAllInternal : List DocumentChunk → Type 0
IsAllInternal v = All (λ (c : DocumentChunk). default_excluded c.data_class ≡ false) v

All-append :
    (v cs : List DocumentChunk) → IsAllInternal v → IsAllInternal cs → IsAllInternal (v ++ cs)
All-append [] cs h k = k
All-append (c ∷ v) cs h k = (h.0, All-append v cs h.1 k)
