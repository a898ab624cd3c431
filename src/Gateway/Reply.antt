-- ===== src/Gateway/Reply.antt =====
-- From a model's stream to a room: DirectOllamaRuntime of saap/gateway/dev_runtime.py, a run of
-- orchestrator.py and the replies of matrix_whatsapp.py together.
use ai_voice.Prelude.{
  ◌≡◌, refl, ap, ◌∙◌, true, false, String, none, List, [], ◌∷◌, any, ◌==◌, string_eq, if◌then◌else◌,
}
use mathlib.Core.List.{append-nil}
use ai_voice.Prelude.Text.{append}
use ai_voice.Gateway.Runs.{Action, start_run, act_all}
use ai_voice.Gateway.Delivery.{is_cancel, yielded-events}
use ai_voice.Gateway.Runtimes.{token_events, direct_run}
use ai_voice.Gateway.Matrix.{matrix_render}

-- The whole text of a stream behind a first part.
abbrev pub text_behind : String → List String → String
text_behind text [] = text
text_behind text (chunk ∷ chunks) = text_behind (append text chunk) chunks

abbrev pub one_message : String → List String
one_message text = if text == "" then [] else text ∷ []

matrix_render-token_events :
    (text : String) (chunks : List String)
    → matrix_render (token_events text chunks) ≡ one_message (text_behind text chunks)
unfolding matrix_render token_events
matrix_render-token_events text [] = refl
matrix_render-token_events text (chunk ∷ chunks) =
    matrix_render-token_events (append text chunk) chunks

-- A room whose model's stream ended gets one message with the whole text, and none where that is
-- empty, however the run and the adapter interleave, where nobody cancels the run.
pub matrix_render-direct_run :
    (chunks : List String) (actions : List Action)
    → any is_cancel actions ≡ false
    → (act_all actions (start_run (direct_run chunks) none)).ended ≡ true
    → matrix_render (act_all actions (start_run (direct_run chunks) none)).yielded
      ≡ one_message (text_behind "" chunks)
unfolding direct_run
matrix_render-direct_run chunks actions h k =
    ap matrix_render (
      yielded-events (token_events "" chunks) none actions h k
      ∙ append-nil (token_events "" chunks))
    ∙ matrix_render-token_events "" chunks
