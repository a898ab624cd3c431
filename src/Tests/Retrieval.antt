-- ===== src/Tests/Retrieval.antt =====
-- Retrieval over the fakes, a grounded answer, and a translation.
use ai_voice.Prelude.{ℕ, ◌+◌, ◌≡◌, refl, true, String, some, List, [], ◌∷◌, map, All}
use ai_voice.Prelude.Text.{append, occurs, starts_with, str_int}
use ai_voice.Prelude.Exec.{ok, Exec}
use ai_voice.Core.Types.{Locale, DataClass}
use ai_voice.Core.TokenPattern.{findall, replace}
use ai_voice.Ingest.{DocumentChunk}
use ai_voice.Rag.{RagPorts, Reading, grounded_reply, is_supported, respond}
use ai_voice.Rag.Grounding.{Grounded, none_left, supported, respond-Grounded}
use ai_voice.Fakes.{without_source, hit, search}
use ai_voice.Fakes.Isolation.{StoreOp, upserts, deletes, run, search-run}
use ai_voice.I18n.{TranslationError, translate, restore, number_spans, distinct, sentinel, protect}
use ai_voice.I18n.Protected.{translate_keeps}
use ai_voice.Tests.Fixtures.{clinic, agency}

abbrev chunk_of : String → String → DocumentChunk
chunk_of chunk_id source_uri = record {
  chunk_id = chunk_id;
  source_uri = source_uri;
  text = "text";
  data_class = DataClass.internal;
}

-- Two tenants in turn, and a source that is deleted again.
abbrev two_tenants : List StoreOp
two_tenants =
    upserts clinic (chunk_of "c1" "a" ∷ chunk_of "c2" "b" ∷ [])
    ∷ upserts agency (chunk_of "a1" "a" ∷ [])
    ∷ deletes clinic "a"
    ∷ upserts clinic (chunk_of "c3" "c" ∷ [])
    ∷ []

search-run_example :
    search {F = ℕ} 1 clinic 5 (run two_tenants [])
    ≡ map (hit {F = ℕ} 1) (chunk_of "c2" "b" ∷ chunk_of "c3" "c" ∷ [])
unfolding without_source
search-run_example = search-run 1 clinic 5 two_tenants

abbrev counting : RagPorts String ℕ ℕ ℕ
counting = record {
  embed = λ query n. (ok 0, n);
  search = λ tenant vector k n. (ok [], n);
  rerank = λ query chunks k n. (ok [], n);
  generate = λ prompt n. (ok "yes", n + 1);
}

abbrev reads_lines : Reading
reads_lines = record {
  sentences = λ s. "It opens at nine [1]." ∷ "It closes at six [2]." ∷ [];
  has_marker = λ s. occurs "[" s;
  supported = λ completion. some true;
}

two_sentences : Grounded counting reads_lines "context" (reads_lines.sentences "a") 0 2
unfolding occurs starts_with is_supported
two_sentences =
    supported {x = "It opens at nine [1]."} refl refl refl
      (supported {x = "It closes at six [2]."} refl refl refl none_left)

respond-Grounded_example :
    respond counting reads_lines "a" "context" 0 ≡ (ok (grounded_reply "a"), 2)
respond-Grounded_example = (respond-Grounded counting reads_lines "a" "context" 0 2).1 two_sentences

-- A provider that puts a word in front of the text.
abbrev prefixing : String → Locale → Locale → Exec (TranslationError String) ℕ String
prefixing text source target n = (ok (append "hi: " text), n + 1)

translate_keeps_example :
    All (λ t. occurs t "hi: call <PHONE_0123abcd> now" ≡ true) ("<PHONE_0123abcd>" ∷ [])
unfolding translate restore number_spans distinct findall occurs starts_with sentinel protect
    replace str_int
translate_keeps_example =
    translate_keeps prefixing "call <PHONE_0123abcd> now" Locale.en_in Locale.hi_in
      "hi: call <PHONE_0123abcd> now" 0 1 refl
