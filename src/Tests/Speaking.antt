-- ===== src/Tests/Speaking.antt =====
-- Frames, threads and streams of the engines on concrete inputs.
use ai_voice.Prelude.{
  ℕ, zero, suc, ◌+◌, ◌≤◌, ◌≡◌, refl, true, false, ◌⊎◌, String, List, [], ◌∷◌, length, ◌*◌,
}
use ai_voice.Tests.Fixtures.{whole}
use ai_voice.Core.Types.{Locale}
use ai_voice.Speech.Whisper.{stream}
use ai_voice.Speech.Whisper.Partials.{Streamed, stream-Streamed}
use ai_voice.Speech.Vad.{VadConfig, VadState, speech_start, speech_end}
use ai_voice.Speech.Vad.Edges.{event_kinds, edges, voiced, Alternates, event_kinds-Alternates}
use ai_voice.Speech.Piper.{
  Source, raised, chunk, Threads, finished, item, sentinel_object, start, worker_round, consume,
  Step, put, get, Run, begun, further,
}
use ai_voice.Speech.Piper.Drain.{items_of, iter_in_thread-items}

abbrev samples : ℕ → ℕ → List ℕ
samples zero v = []
samples (suc n) v = v ∷ samples n v

-- A model whose probability is the first sample.
abbrev first_sample : List ℕ → ℕ → ℕ × ℕ
first_sample [] s = (0, s)
first_sample (x ∷ xs) s = (x, s)

abbrev cfg : VadConfig ℕ
cfg = record { threshold = 5; sample_rate = 16000 }

abbrev at_rest : VadState ℕ ℕ
at_rest = record { state = 0; is_speaking = false; elapsed_ms = 0 }

-- A quiet frame, one that is too short, a loud one, and a quiet one.
abbrev frames : List (List ℕ)
frames = samples 512 1 ∷ samples 3 9 ∷ samples 512 9 ∷ samples 512 1 ∷ []

event_kinds-Alternates_example :
    ((event_kinds whole cfg first_sample (λ b. b) frames at_rest).0
      ≡ edges false (voiced whole cfg first_sample (λ b. b) frames 0))
    × Alternates false
        (event_kinds whole cfg first_sample (λ b. b) frames at_rest).0
        (event_kinds whole cfg first_sample (λ b. b) frames at_rest).1.is_speaking
event_kinds-Alternates_example =
    event_kinds-Alternates whole cfg first_sample (λ b. b) frames at_rest

-- The loud frame between quiet ones starts and ends an utterance.
voiced_edges : edges false (false ∷ true ∷ false ∷ []) ≡ speech_start ∷ speech_end ∷ []
voiced_edges = refl

-- A transcriber that says the same of every buffer.
stream-Streamed_example :
    Streamed
      (λ (buffer : List ℕ) lang. "ok" ∷ [])
      (λ s. s)
      Locale.ta_in
      2
      (1 ∷ 2 ∷ 3 ∷ [])
      3
      0
      (stream
        (λ (buffer : List ℕ) lang. "ok" ∷ [])
        (λ s. s)
        Locale.ta_in
        2
        ((1 ∷ []) ∷ (2 ∷ []) ∷ (3 ∷ []) ∷ []))
stream-Streamed_example =
    stream-Streamed (λ (buffer : List ℕ) lang. "ok" ∷ []) (λ s. s) Locale.ta_in 2
      ((1 ∷ []) ∷ (2 ∷ []) ∷ (3 ∷ []) ∷ [])

-- One chunk, and then an exception.
abbrev broken : Source String
broken = chunk "a" raised

abbrev all_done : Threads String
all_done = record { worker = finished; queued = []; yielded = "a" ∷ []; done = true }

in_turn : Run (start broken) 4 all_done
unfolding start worker_round consume
in_turn =
    further
      (further (further (further begun (put broken _ refl)) (get (item "a") [] _ refl refl))
        (put raised _ refl))
      (get sentinel_object [] _ refl refl)

iter_in_thread-items_example :
    (4 ≤ 2 + 2 * length (items_of broken))
    × (((all_done.done ≡ true) × (all_done.yielded ≡ items_of broken))
        ⊎ ((u : Threads String) × Step all_done u))
iter_in_thread-items_example = iter_in_thread-items broken 4 all_done in_turn
