-- ===== src/Speech/Vad.antt =====
-- saap/plugins/voice/silero/__init__.py: the detector of speech. The model's session, which returns a
-- probability and its next state, and the conversion of a frame into samples are parameters.
pub mod Edges
use ai_voice.Prelude.{
  ℕ, Bool, true, false, not, ◌&&◌, String, Option, none, some, List, length, nat_beq, if◌then◌else◌,
}
use ai_voice.Prelude.Exec.{Result, ok, err, Exec}
use ai_voice.Prelude.Floats.{Floats}
use ai_voice.Prelude.Text.{append, str_int}

-- saap/core/voice.py; the kinds are the texts "speech_start" and "speech_end".
pub data EventKind : Type 0 where
  speech_start speech_end : EventKind

pub record VadEvent (F : Type 0) : Type 0 where
  pub kind : EventKind
  pub timestamp_ms : F

abbrev pub frame_samples : ℕ
frame_samples = 512

abbrev pub sample_rate_hz : ℕ
sample_rate_hz = 16000

-- `SileroVAD.__init__`: what it is given and does not change, and the three attributes that it does.
pub record VadConfig (F : Type 0) : Type 0 where
  pub threshold : F
  pub sample_rate : ℕ

pub record VadState (S F : Type 0) : Type 0 where
  pub state : S
  pub is_speaking : Bool
  pub elapsed_ms : F

module _ {F : Type 0} (floats : Floats F) where
  unfoldable pub transition : Bool → F → F → F → Bool × Option (VadEvent F)
  transition is_speaking speech_prob threshold elapsed_ms =
      let currently_speaking = floats.geq speech_prob threshold in
      (
        currently_speaking,
        if currently_speaking && not is_speaking
            then some (record { kind = speech_start; timestamp_ms = elapsed_ms })
            else if not currently_speaking && is_speaking
            then some (record { kind = speech_end; timestamp_ms = elapsed_ms })
            else none,
      )

  -- (FRAME_SAMPLES / self._sample_rate) * 1000
  unfoldable pub frame_duration_ms : ℕ → F
  frame_duration_ms sample_rate =
      floats.mul (floats.div (floats.of_nat frame_samples) (floats.of_nat sample_rate))
        (floats.of_nat 1000)

  -- `reset`, and the attributes as `__init__` sets them
  unfoldable pub reset : {S : Type 0} → S → VadState S F
  reset zeros = record { state = zeros; is_speaking = false; elapsed_ms = floats.of_nat 0 }

  module _ {S B : Type 0} (cfg : VadConfig F) (run : List F → S → F × S)
      (samples_of : B → List F) where
    unfoldable pub infer : List F → VadState S F → F × VadState S F
    infer samples s = let (prob, state) = run samples s.state in (prob, record s { state = state })

    unfoldable pub wrong_size : List F → String
    wrong_size samples = append "expected " (
        append (str_int frame_samples) (
          append "-sample frames at "
            (append (str_int cfg.sample_rate) (append "Hz, got " (str_int (length samples))))))

    unfoldable pub process_samples : List F → VadState S F → Option (VadEvent F) × VadState S F
    process_samples samples s =
        let (speech_prob, s') = infer samples s in
        let elapsed_ms = floats.add s'.elapsed_ms (frame_duration_ms cfg.sample_rate) in
        let (is_speaking, event) = transition s'.is_speaking speech_prob cfg.threshold elapsed_ms in
        (event, record s' { is_speaking = is_speaking; elapsed_ms = elapsed_ms })

    unfoldable pub process_frame : B → Exec String (VadState S F) (Option (VadEvent F))
    process_frame pcm_frame s =
        let samples = samples_of pcm_frame in
        let (event, s') = process_samples samples s in
        if not (nat_beq (length samples) frame_samples)
        then (err (wrong_size samples), s)
        else (ok event, s')
