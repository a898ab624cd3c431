-- ===== src/Speech/Whisper/Partials.antt =====
-- What a stream of saap/plugins/voice/faster_whisper/__init__.py yields.
use mathlib.Core.List.{append_assoc, append-nil}
use ai_voice.Prelude.{
  ℕ, zero, suc, ◌+◌, ◌*◌, ◌≤◌, ◌≡◌, refl, ap, sym, ◌∙◌, true, false, String, List, map,
  if◌then◌else◌, [], ◌∷◌, ◌++◌, All, All-append, length, leb, ◌==◌, string_eq, arith, inl, inr,
  Bool-cases, length-append, leb→le,
}
use ai_voice.Core.Types.{Locale}
use ai_voice.Voice.{SttPartial}
use ai_voice.Ingest.{join_words}
use ai_voice.Speech.Whisper.{
  whisper_lang, stream, stream_loop, transcribe_buffer, flush, yield_text,
}

-- b"".join(frames)
abbrev pub joined : {B : Type 0} → List (List B) → List B
joined [] = []
joined (frame ∷ frames) = frame ++ joined frames

mul_bound :
    (a b n frames since : ℕ)
    → a ≤ 1
    → n ≤ suc since
    → b * n ≤ frames + 0
    → (a + b) * n ≤ suc frames + since
mul_bound zero b n frames since h k l = omega (arith, l)
mul_bound (suc zero) b n frames since h k l = omega (arith, k, l)
mul_bound (suc (suc a)) b n frames since h k l = absurd (omega arith)

abbrev pub IsPartial : SttPartial → Type 0
IsPartial p = p.is_final ≡ false

module _ {B : Type 0} (transcribe : List B → String → List String) (strip : String → String)
    (locale : Locale) (interval : ℕ) where
  -- The last of a stream, for all of its bytes: nothing for no bytes; otherwise the texts of the
  -- model's segments, stripped, joined and stripped again, marked final, where that is not empty.
  abbrev pub last_word : String → List SttPartial
  last_word text = if text == "" then [] else record { text = text; is_final = true } ∷ []

  abbrev pub last_words : List B → List SttPartial
  last_words [] = []
  last_words (b ∷ bytes) =
      last_word (strip (join_words (map strip (transcribe (b ∷ bytes) (whisper_lang locale)))))

  flush-last_words :
      (buffer : List B) → flush transcribe strip locale interval buffer ≡ last_words buffer
  unfolding flush yield_text transcribe_buffer
  flush-last_words [] = refl
  flush-last_words (b ∷ bytes) = refl

  -- What is yielded of these frames, from a count of frames since the last partial.
  pub data Streamed (buffer : List B) (frames since : ℕ) (out : List SttPartial) : Type 0 where
    streamed :
        (partials : List SttPartial)
        → out ≡ partials ++ last_words buffer
        → All IsPartial partials
        → length partials * interval ≤ frames + since
        → Streamed buffer frames since out

  yielded_one :
      (buffer : List B)
      → All IsPartial (yield_text transcribe strip locale interval false buffer)
        × (length (yield_text transcribe strip locale interval false buffer) ≤ 1)
  unfolding yield_text
  yielded_one buffer =
      elim (Bool-cases (transcribe_buffer transcribe strip locale interval buffer == "")) [
        | inl k ↦ rw (k) (tt, omega arith)
        | inr k ↦ rw (k) ((refl, tt), omega arith)
      ]

  led :
      (frames since : ℕ) (first : List SttPartial) {buffer : List B} {out : List SttPartial}
      → All IsPartial first × (length first ≤ 1)
      → interval ≤ suc since
      → Streamed buffer frames 0 out
      → Streamed buffer (suc frames) since (first ++ out)
  led frames since first {buffer = buffer} (h, few) k (streamed partials e all bound) =
      streamed (first ++ partials)
        (ap (λ o. first ++ o) e ∙ sym (append_assoc first partials (last_words buffer)))
        (All-append IsPartial first partials h all)
        (rw (length-append)
          (mul_bound (length first) (length partials) interval frames since few k bound))

  later :
      (frames since : ℕ) {buffer : List B} {out : List SttPartial}
      → Streamed buffer frames (suc since) out
      → Streamed buffer (suc frames) since out
  later frames since (streamed partials e all bound) =
      streamed partials e all (omega (arith, bound))

  stream_loop-Streamed :
      (frames : List (List B)) (buffer : List B) (since : ℕ)
      → Streamed
          (buffer ++ joined frames)
          (length frames)
          since
          (stream_loop transcribe strip locale interval frames buffer since)
  unfolding stream_loop
  stream_loop-Streamed [] buffer since =
      rw (append-nil) (streamed [] (flush-last_words buffer) tt (omega arith))
  stream_loop-Streamed (frame ∷ frames) buffer since =
      elim (Bool-cases (leb interval (suc since))) [
        | inl k ↦
            rw (k, sym (append_assoc buffer frame (joined frames)))
              (led (length frames) since
                (yield_text transcribe strip locale interval false (buffer ++ frame))
                (yielded_one (buffer ++ frame)) (leb→le interval (suc since) k)
                (stream_loop-Streamed frames (buffer ++ frame) 0))
        | inr k ↦
            rw (k, sym (append_assoc buffer frame (joined frames)))
              (later (length frames) since
                (stream_loop-Streamed frames (buffer ++ frame) (suc since)))
      ]

-- A stream ends with the transcript of all of its bytes, marked final, where there are bytes and the
-- transcript, which is the stripped join of the model's stripped segments, is not empty; without
-- bytes, or for an empty transcript, nothing is final. Before that stand only partials that are not
-- final, at most one for every full interval of frames.
pub stream-Streamed :
    {B : Type 0} (transcribe : List B → String → List String) (strip : String → String)
    (locale : Locale) (interval : ℕ) (pcm_frames : List (List B))
    → Streamed transcribe strip locale interval
        (joined pcm_frames)
        (length pcm_frames)
        0
        (stream transcribe strip locale interval pcm_frames)
unfolding stream
stream-Streamed transcribe strip locale interval pcm_frames =
    stream_loop-Streamed transcribe strip locale interval pcm_frames [] 0
