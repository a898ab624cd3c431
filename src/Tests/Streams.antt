-- ===== src/Tests/Streams.antt =====
-- Two servers that send the same three contents.
use Prim.Native.Char.{code}
use Prim.Native.String.{String, [], ◌∷◌}
use ai_voice.Prelude.{
  ◌≡◌, refl, ap, Bool, true, false, nat_beq, Option, none, some, List, ◌==◌, string_eq, Bool-cases,
  inl, inr,
}
use ai_voice.Prelude.Text.{append, starts_with}
use ai_voice.Engines.{value, yield_first, get_truthy}
use ai_voice.Engines.Ollama.{OllamaChunk, chunk_lines}
use ai_voice.Engines.Vllm.{VllmChunk, data_lines}
use ai_voice.Gateway.Runs.{
  Action, drives, takes, start_run, act_all, act, take_event, drive, take_queue, drive_step,
}
use ai_voice.Gateway.Runtimes.{direct_run, token_events}
use ai_voice.Gateway.Matrix.{matrix_render}
use ai_voice.Gateway.Reply.{one_message, text_behind}
use ai_voice.Gateway.Room.{matrix_render-chunk_lines}
use ai_voice.Engines.Agreement.{line_of, IsFraming, ollama_lines, vllm_lines, yields, streams_agree}

-- The text behind the first character, which is a space where a line is stripped.
abbrev behind_first : String → String
behind_first [] = ""
behind_first (c ∷ s) = s

-- A line is two letters and the content; the last starts with "e".
abbrev read_line : String → Option OllamaChunk
read_line [] = none
read_line (c ∷ s) = some (line_of (behind_first s) (nat_beq (code c) b'e'))

abbrev one_choice : String → VllmChunk
one_choice s = record { choices = some (List.◌∷◌ (value (value s)) List.[]) }

abbrev read_data : String → Option VllmChunk
read_data [] = none
read_data (c ∷ s) = some (one_choice s)

told_apart : (f : String → Bool) (a b : String) → f a ≡ true → f b ≡ false → (a == b) ≡ false
told_apart f a b h k = elim (Bool-cases (a == b)) [
  | inl e ↦ absurd (cc (h, k, ap f ((string_eq.beq_iff a b).0 e)))
  | inr e ↦ e
]

letters-IsFraming : IsFraming read_line read_data behind_first (append "ok") (append "j") "ee"
unfolding append starts_with
letters-IsFraming = record {
  ollama_reads = λ c. refl;
  ollama_not_blank = λ c. told_apart (starts_with "k") (append "k" c) "" refl refl;
  last_reads = refl;
  last_not_blank = refl;
  vllm_reads = λ c. refl;
  vllm_strips = λ c. refl;
  vllm_not_done = λ c. told_apart (starts_with "j") (append "j" c) "[DONE]" refl refl;
  done_strips = refl;
}

abbrev contents : List String
contents = List.◌∷◌ "Hello" (List.◌∷◌ "" (List.◌∷◌ " there" List.[]))

streams_agree_example :
    (chunk_lines read_line behind_first (ollama_lines (append "ok") "ee" contents List.[])
      ≡ yields contents)
    × (data_lines read_data behind_first (vllm_lines (append "j") contents List.[])
        ≡ yields contents)
streams_agree_example =
    streams_agree read_line read_data behind_first (append "ok") (append "j") "ee" letters-IsFraming
      contents List.[] List.[]

abbrev steps : List Action
steps = List.◌∷◌ drives (
    List.◌∷◌ drives (
      List.◌∷◌ takes (
        List.◌∷◌ drives (
          List.◌∷◌ drives (
            List.◌∷◌ drives
              (List.◌∷◌ drives (List.◌∷◌ takes (List.◌∷◌ takes (List.◌∷◌ takes List.[])))))))))

abbrev sent_texts : List String
sent_texts =
    (chunk_lines read_line behind_first (ollama_lines (append "ok") "ee" contents List.[])).texts

matrix_render-chunk_lines_example :
    ((chunk_lines read_line behind_first (ollama_lines (append "ok") "ee" contents List.[])).raised
      ≡ none)
    × (matrix_render (act_all steps (start_run (direct_run sent_texts) none)).yielded
        ≡ one_message (text_behind "" contents))
unfolding act_all act take_event drive start_run take_queue drive_step direct_run token_events
    chunk_lines append yield_first get_truthy
matrix_render-chunk_lines_example =
    matrix_render-chunk_lines read_line read_data behind_first (append "ok") (append "j") "ee"
      letters-IsFraming contents List.[] steps refl refl
