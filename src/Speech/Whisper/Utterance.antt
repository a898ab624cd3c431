-- ===== src/Speech/Whisper/Utterance.antt =====
-- The utterance that saap/voice/session_runtime.py takes from the transcriber of
-- saap/plugins/voice/faster_whisper/__init__.py.
use ai_voice.Prelude.{
  ℕ, ◌≡◌, refl, ap, ◌∙◌, sym, String, List, [], ◌∷◌, ◌++◌, All, length, ◌==◌, string_eq, inl, inr,
  Bool-cases,
}
use ai_voice.Core.Types.{Locale}
use ai_voice.Voice.{SttPartial, utterance_of}
use ai_voice.Speech.Whisper.{stream, transcribe_buffer}
use ai_voice.Speech.Whisper.Partials.{
  joined, last_word, last_words, IsPartial, Streamed, streamed, stream-Streamed,
}

utterance_of-append :
    (utterance : String) (partials more : List SttPartial)
    → All IsPartial partials
    → utterance_of utterance (partials ++ more) ≡ utterance_of utterance more
unfolding utterance_of
utterance_of-append utterance [] more h = refl
utterance_of-append utterance (p ∷ ps) more h = rw (h.0) (utterance_of-append utterance ps more h.1)

module _ {B : Type 0} (transcribe : List B → String → List String) (strip : String → String)
    (locale : Locale) (interval : ℕ) where
  utterance_of-last_word :
      (text : String) → utterance_of "" (last_word transcribe strip locale interval text) ≡ text
  unfolding utterance_of
  utterance_of-last_word text = elim (Bool-cases (text == "")) [
    | inl k ↦ rw (k) (sym ((string_eq.beq_iff text "").0 k))
    | inr k ↦ rw (k) refl
  ]

  streamed_utterance :
      (b : B) (buffer : List B) (frames since : ℕ) (out : List SttPartial)
      → Streamed transcribe strip locale interval (b ∷ buffer) frames since out
      → utterance_of "" out ≡ transcribe_buffer transcribe strip locale interval (b ∷ buffer)
  unfolding transcribe_buffer
  streamed_utterance b buffer frames since out (streamed partials e all bound) =
      ap (utterance_of "") e
      ∙ utterance_of-append "" partials (last_words transcribe strip locale interval (b ∷ buffer))
          all
      ∙ utterance_of-last_word (transcribe_buffer transcribe strip locale interval (b ∷ buffer))

-- The utterance of a turn is what all the bytes of its frames transcribe to, where there are any, however
-- many partials came before.
pub utterance_of-stream :
    {B : Type 0} (transcribe : List B → String → List String) (strip : String → String)
    (locale : Locale) (interval : ℕ) (pcm_frames : List (List B)) (b : B) (bytes : List B)
    → joined pcm_frames ≡ b ∷ bytes
    → utterance_of "" (stream transcribe strip locale interval pcm_frames)
      ≡ transcribe_buffer transcribe strip locale interval (b ∷ bytes)
utterance_of-stream transcribe strip locale interval pcm_frames b bytes h =
    let all : Streamed transcribe strip locale interval (joined pcm_frames) (length pcm_frames) 0
        (stream transcribe strip locale interval pcm_frames) =
      stream-Streamed transcribe strip locale interval pcm_frames in
    streamed_utterance transcribe strip locale interval b bytes (length pcm_frames) 0 _
      (rw (h) at all)
