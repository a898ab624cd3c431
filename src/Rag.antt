-- ===== src/Rag.antt =====
-- saap/core/memory.py: retrieval, citation packing and the grounding check, with the two canvas
-- components over them, saap/langflow_components/logic/rag_retriever.py and grounded_responder.py.
-- The embedder, the store, the reranker and the verifier are parameters that act on a state and may
-- raise. The regular expressions that cut sentences and find citation markers are parameters, and
-- so is the reading of the verifier's JSON.
pub mod Grounding
use ai_voice.Prelude.{
  ℕ, suc, ◌+◌, ◌*◌, Bool, true, false, String, Option, none, some, List, [], ◌∷◌, ◌++◌, leb,
  if◌then◌else◌,
}
use ai_voice.Prelude.Text.{append, str_int}
use ai_voice.Prelude.Exec.{Exec, pure, ◌>>=◌}
use ai_voice.Core.Types.{TenantContext}
use ai_voice.Ingest.{DocumentChunk}

-- A chunk with its score, a number of the store's.
pub record RetrievedChunk (F : Type 0) : Type 0 where
  pub chunk : DocumentChunk
  pub score : F

pub record Citation : Type 0 where
  pub chunk_id : String
  pub source_uri : String
  pub marker : String

pub record GroundedAnswer : Type 0 where
  pub text : String
  pub citations : List Citation
  pub grounded : Bool
  pub ungrounded_spans : List String

-- max(a, b)
unfoldable pub max : ℕ → ℕ → ℕ
max a b = if leb a b then b else a

-- What `RAGService` is built from. `embed` is the call with one query, unpacked.
pub record RagPorts (E S V F : Type 0) : Type 0 where
  pub embed : String → Exec E S V
  pub search : TenantContext → V → ℕ → Exec E S (List (RetrievedChunk F))
  pub rerank : String → List (RetrievedChunk F) → ℕ → Exec E S (List (RetrievedChunk F))
  pub generate : String → Exec E S String

-- What `verify_grounding` takes from `re` and `json`: the sentences, stripped and not empty, the
-- search for a citation marker, and the truth of the key "supported", where `none` is an error that
-- is caught.
pub record Reading : Type 0 where
  pub sentences : String → List String
  pub has_marker : String → Bool
  pub supported : String → Option Bool

-- f"[{i}]"
unfoldable pub marker_text : ℕ → String
unfolding append
marker_text i = append "[" (append (str_int i) "]")

-- "\n\n".join(lines)
unfoldable pub join_lines : List String → String
join_lines [] = ""
join_lines (l ∷ []) = l
join_lines (l ∷ m ∷ ls) = append l (append "\n\n" (join_lines (m ∷ ls)))

-- The prompt of one check.
unfoldable pub claim_prompt : String → String → String
claim_prompt context sentence = append "Context:\n" (
    append context (
      append "\n\nClaim: "
        (append sentence "\nDoes the context entail this claim? Answer with JSON only.")))

-- FALLBACK_TEXT
abbrev pub fallback_text : String
fallback_text =
    "I don't have enough grounded information from your documents to answer that confidently. Let me connect you with someone who can help."

pub record GroundedReply : Type 0 where
  pub text : String
  pub grounded : Bool
  pub ungrounded_spans : List String

abbrev pub grounded_reply : String → GroundedReply
grounded_reply answer_text = record { text = answer_text; grounded = true; ungrounded_spans = [] }

abbrev pub fallback_reply : List String → GroundedReply
fallback_reply spans = record { text = fallback_text; grounded = false; ungrounded_spans = spans }

unfoldable pub is_supported : Reading → String → Bool
is_supported re completion = elim (re.supported completion) [ none ↦ false | some b ↦ b ]

module _ {F : Type 0} where
  -- The loop of `_pack_citations`, from the number `i` on.
  unfoldable pub pack_loop : ℕ → List (RetrievedChunk F) → List String × List Citation
  pack_loop i [] = ([], [])
  pack_loop i (rc ∷ rcs) =
      let (lines, citations) = pack_loop (suc i) rcs in
      (
        append (marker_text i) (append " " rc.chunk.text) ∷ lines,
        record {
          chunk_id = rc.chunk.chunk_id;
          source_uri = rc.chunk.source_uri;
          marker = marker_text i;
        }
            ∷ citations,
      )

  unfoldable pub pack_citations : List (RetrievedChunk F) → String × List Citation
  pack_citations chunks =
      let (lines, citations) = pack_loop 1 chunks in (join_lines lines, citations)

module _ {E S V F : Type 0} (rag : RagPorts E S V F) where
  unfoldable pub retrieve : TenantContext → String → ℕ → Exec E S (List (RetrievedChunk F))
  retrieve tenant query k = rag.embed query >>= λ query_vector.
      rag.search tenant query_vector (max (k * 4) 20) >>= λ candidates.
      rag.rerank query candidates k

  -- `RAGService.answer`, which is also `RAGRetrieverLogic.retrieve`
  unfoldable pub answer : TenantContext → String → Exec E S GroundedAnswer
  answer tenant question = retrieve tenant question 6 >>= λ chunks.
      let (context_block, citations) = pack_citations chunks in
      pure record {
        text = context_block;
        citations = citations;
        grounded = true;
        ungrounded_spans = [];
      }

  module _ (re : Reading) where
    -- One round of the loop: the sentence, if it is not grounded. A sentence with no marker costs
    -- no call of the model.
    unfoldable pub check_sentence : String → String → Exec E S (List String)
    check_sentence context sentence =
        if re.has_marker sentence
        then (rag.generate (claim_prompt context sentence) >>= λ completion.
            pure (if is_supported re completion then [] else sentence ∷ []))
        else pure (sentence ∷ [])

    unfoldable pub ungrounded : String → List String → Exec E S (List String)
    ungrounded context [] = pure []
    ungrounded context (s ∷ ss) =
        check_sentence context s >>= λ found. ungrounded context ss >>= λ more. pure (found ++ more)

    unfoldable pub verify_grounding : String → String → Exec E S (Bool × List String)
    verify_grounding answer_text context_block =
        ungrounded context_block (re.sentences answer_text) >>= λ spans.
        pure (elim spans [ [] ↦ true | _ ∷ _ ↦ false ], spans)

    -- `GroundedResponderLogic.respond`
    unfoldable pub respond : String → String → Exec E S GroundedReply
    respond answer_text context_block =
        verify_grounding answer_text context_block >>= λ (grounded, spans).
        if grounded then pure (grounded_reply answer_text) else pure (fallback_reply spans)
