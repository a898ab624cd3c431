-- ===== src/Speech/Whisper.antt =====
-- saap/plugins/voice/faster_whisper/__init__.py: the transcriber. The model, from the bytes of a buffer to
-- the texts of its segments, and `str.strip` are parameters; a stream is the list of what it yields.
pub mod Partials
pub mod Utterance
use ai_voice.Prelude.{
  ℕ, zero, suc, Bool, true, false, not, String, List, [], ◌∷◌, ◌++◌, map, ◌==◌, string_eq, leb,
  length, if◌then◌else◌,
}
use ai_voice.Prelude.Text.{append, split_first}
use ai_voice.Core.Types.{Locale}
use ai_voice.Ingest.{join_words}
use ai_voice.Voice.{SttPartial}

-- The locale's value, and its part before the "-".
unfoldable pub whisper_lang : Locale → String
whisper_lang Locale.en_in = "en"
whisper_lang Locale.en_us = "en"
whisper_lang Locale.ta_in = "ta"
whisper_lang Locale.hi_in = "hi"
whisper_lang Locale.mr_in = "mr"
whisper_lang Locale.gu_in = "gu"

module _ {B : Type 0} (transcribe : List B → String → List String) (strip : String → String)
    (locale : Locale) (partial_interval_frames : ℕ) where
  unfoldable pub transcribe_buffer : List B → String
  transcribe_buffer buffer =
      strip (join_words (map strip (transcribe buffer (whisper_lang locale))))

  -- `if text: yield STTPartial(...)`
  unfoldable pub yield_text : Bool → List B → List SttPartial
  yield_text is_final buffer =
      let text = transcribe_buffer buffer in
      if text == "" then [] else record { text = text; is_final = is_final } ∷ []

  -- Behind the loop, where the frames have ended.
  unfoldable pub flush : List B → List SttPartial
  flush [] = []
  flush (b ∷ buffer) = yield_text true (b ∷ buffer)

  unfoldable pub stream_loop : List (List B) → List B → ℕ → List SttPartial
  stream_loop [] buffer frames_since_partial = flush buffer
  stream_loop (frame ∷ frames) buffer frames_since_partial =
      let extended = buffer ++ frame in
      let transcribed = stream_loop frames extended 0 in
      let waited = stream_loop frames extended (suc frames_since_partial) in
      if leb partial_interval_frames (suc frames_since_partial)
      then yield_text false extended ++ transcribed
      else waited

  unfoldable pub stream : List (List B) → List SttPartial
  stream pcm_frames = stream_loop pcm_frames [] 0
