-- ===== src/Engines/Agreement.antt =====
-- The streams of saap/plugins/llm/ollama/__init__.py and saap/plugins/llm/vllm/__init__.py of the same text.
use ai_voice.Prelude.{
  ◌≡◌, refl, Bool, true, false, not, String, Option, none, some, List, [], ◌∷◌, keep, ◌==◌,
  string_eq, Bool-cases, inl, inr,
}
use ai_voice.Prelude.Text.{append, starts_with, text_drop}
use ai_voice.Engines.{Yielded, yield_first, value, missing, get_truthy, and_then}
use ai_voice.Engines.Ollama.{OllamaChunk, message_of, chunk_lines}
use ai_voice.Engines.Vllm.{VllmChunk, data_lines, yield_delta, first_choice, object_of}

-- A line of Ollama with this content.
abbrev pub line_of : String → Bool → OllamaChunk
line_of c done = record {
  message = value (record { content = value c; tool_calls = missing });
  done = done;
}

-- How the two servers frame a content: a line of JSON that is not the last, and at the end one that says
-- so; or the JSON behind "data: ", each with a blank line behind it, and a mark at the end.
pub record IsFraming (ollama_loads : String → Option OllamaChunk)
    (vllm_loads : String → Option VllmChunk) (strip : String → String)
    (ollama_json vllm_json : String → String) (last_line : String) : Type 0 where
  pub ollama_reads : (c : String) → ollama_loads (ollama_json c) ≡ some (line_of c false)
  pub ollama_not_blank : (c : String) → (strip (ollama_json c) == "") ≡ false
  pub last_reads : ollama_loads last_line ≡ some (line_of "" true)
  pub last_not_blank : (strip last_line == "") ≡ false
  pub vllm_reads :
      (c : String)
      → vllm_loads (vllm_json c) ≡ some (record { choices = some (value (value c) ∷ []) })
  pub vllm_strips : (c : String) → strip (append " " (vllm_json c)) ≡ vllm_json c
  pub vllm_not_done : (c : String) → (vllm_json c == "[DONE]") ≡ false
  pub done_strips : strip " [DONE]" ≡ "[DONE]"

abbrev pub ollama_lines : (String → String) → String → List String → List String → List String
ollama_lines json last_line [] behind = last_line ∷ behind
ollama_lines json last_line (c ∷ cs) behind = json c ∷ ollama_lines json last_line cs behind

abbrev pub vllm_lines : (String → String) → List String → List String → List String
vllm_lines json [] behind = "data: [DONE]" ∷ behind
vllm_lines json (c ∷ cs) behind = append "data: " (json c) ∷ "" ∷ vllm_lines json cs behind

-- What both are to yield.
abbrev pub yields : List String → Yielded
yields cs = record { texts = keep (λ c. not (c == "")) cs; raised = none }

yield_first-yields : (c : String) (cs : List String) → yield_first c (yields cs) ≡ yields (c ∷ cs)
unfolding yield_first
yield_first-yields c cs = elim (Bool-cases (c == "")) [ inl k ↦ rw (k) refl | inr k ↦ rw (k) refl ]

module _ (ollama_loads : String → Option OllamaChunk) (vllm_loads : String → Option VllmChunk)
    (strip : String → String) (ollama_json vllm_json : String → String) (last_line : String)
    (framing : IsFraming ollama_loads vllm_loads strip ollama_json vllm_json last_line) where
  chunk_lines-yields :
      (cs behind : List String)
      → chunk_lines ollama_loads strip (ollama_lines ollama_json last_line cs behind) ≡ yields cs
  unfolding chunk_lines message_of get_truthy yield_first
  chunk_lines-yields [] behind = rw (framing.last_not_blank, framing.last_reads) refl
  chunk_lines-yields (c ∷ cs) behind =
      rw (framing.ollama_not_blank c, framing.ollama_reads c, chunk_lines-yields cs behind)
        (yield_first-yields c cs)

  data_lines-yields :
      (cs behind : List String)
      → data_lines vllm_loads strip (vllm_lines vllm_json cs behind) ≡ yields cs
  unfolding data_lines yield_delta first_choice object_of and_then get_truthy yield_first
      starts_with append text_drop
  data_lines-yields [] behind = rw (framing.done_strips) refl
  data_lines-yields (c ∷ cs) behind =
      rw
        (
          framing.vllm_strips c,
          framing.vllm_not_done c,
          framing.vllm_reads c,
          data_lines-yields cs behind,
        )
        (yield_first-yields c cs)

-- Whichever of the two servers frames the contents, and whatever comes behind its end, both providers yield
-- the same texts: the contents that are not empty, in order, without an exception.
pub streams_agree :
    (ollama_loads : String → Option OllamaChunk) (vllm_loads : String → Option VllmChunk)
    (strip : String → String) (ollama_json vllm_json : String → String) (last_line : String)
    (framing : IsFraming ollama_loads vllm_loads strip ollama_json vllm_json last_line)
    (cs behind more : List String)
    → (chunk_lines ollama_loads strip (ollama_lines ollama_json last_line cs behind) ≡ yields cs)
      × (data_lines vllm_loads strip (vllm_lines vllm_json cs more) ≡ yields cs)
streams_agree ollama_loads vllm_loads strip ollama_json vllm_json last_line framing cs behind more =
    (
      chunk_lines-yields ollama_loads vllm_loads strip ollama_json vllm_json last_line framing cs
          behind,
      data_lines-yields ollama_loads vllm_loads strip ollama_json vllm_json last_line framing cs
          more,
    )
