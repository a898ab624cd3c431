-- ===== src/Gateway/Room.antt =====
-- From the lines of an Ollama server to a room: OllamaProvider of saap/plugins/llm/ollama/__init__.py under
-- DirectOllamaRuntime, a run of orchestrator.py and the replies of matrix_whatsapp.py.
use ai_voice.Prelude.{
  ◌≡◌, refl, ap, sym, ◌∙◌, true, false, not, String, Option, none, List, [], ◌∷◌, any, keep, ◌==◌,
  string_eq, inl, inr, Bool-cases,
}
use ai_voice.Prelude.Text.{append, append-nil}
use ai_voice.Engines.{Yielded}
use ai_voice.Engines.Ollama.{OllamaChunk, chunk_lines}
use ai_voice.Engines.Vllm.{VllmChunk}
use ai_voice.Engines.Agreement.{IsFraming, ollama_lines, yields, streams_agree}
use ai_voice.Gateway.Runs.{Action, start_run, act_all}
use ai_voice.Gateway.Delivery.{is_cancel}
use ai_voice.Gateway.Runtimes.{direct_run}
use ai_voice.Gateway.Matrix.{matrix_render}
use ai_voice.Gateway.Reply.{text_behind, one_message, matrix_render-direct_run}

-- Contents that are empty add nothing to the text.
text_behind-keep :
    (text : String) (cs : List String)
    → text_behind text (keep (λ c. not (c == "")) cs) ≡ text_behind text cs
text_behind-keep text [] = refl
text_behind-keep text (c ∷ cs) = elim (Bool-cases (c == "")) [
  | inl k ↦
      let empty : c ≡ "" = (string_eq.beq_iff c "").0 k in
      rw (k) (
        text_behind-keep text cs
        ∙ ap (λ t. text_behind t cs) (sym (append-nil text) ∙ ap (append text) (sym empty)))
  | inr k ↦ rw (k) (text_behind-keep (append text c) cs)
]

-- Whatever contents an Ollama server streams, and however the run and the adapter interleave: where nobody
-- cancels the run and its stream has ended, the room gets one message with all that the server sent, in
-- order, or none where that is empty; and the provider raises nothing.
pub matrix_render-chunk_lines :
    (ollama_loads : String → Option OllamaChunk) (vllm_loads : String → Option VllmChunk)
    (strip : String → String) (ollama_json vllm_json : String → String) (last_line : String)
    (framing : IsFraming ollama_loads vllm_loads strip ollama_json vllm_json last_line)
    (cs behind : List String) (actions : List Action)
    → any is_cancel actions ≡ false
    → (act_all actions (
        start_run
          (direct_run
            (chunk_lines ollama_loads strip (ollama_lines ollama_json last_line cs behind)).texts)
          none)).ended
      ≡ true
    → ((chunk_lines ollama_loads strip (ollama_lines ollama_json last_line cs behind)).raised
        ≡ none)
      × (matrix_render
            (act_all actions (
              start_run
                (direct_run
                  (chunk_lines ollama_loads strip
                    (ollama_lines ollama_json last_line cs behind)).texts)
                none)).yielded
          ≡ one_message (text_behind "" cs))
matrix_render-chunk_lines ollama_loads vllm_loads strip ollama_json vllm_json last_line framing cs
      behind actions h k =
    let out = chunk_lines ollama_loads strip (ollama_lines ollama_json last_line cs behind) in
    let sent : out ≡ yields cs =
      (streams_agree ollama_loads vllm_loads strip ollama_json vllm_json last_line framing cs behind
        []).0 in
    (
      ap (λ (o : Yielded). o.raised) sent,
      matrix_render-direct_run out.texts actions h k
          ∙ ap (λ (o : Yielded). one_message (text_behind "" o.texts)) sent
          ∙ ap one_message (text_behind-keep "" cs),
    )
