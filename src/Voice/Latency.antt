-- ===== src/Voice/Latency.antt =====
-- The latency ledger of saap/core/voice.py, and how `run_turn` of saap/voice/session_runtime.py fills it. A reading of
-- the clock is a floating-point number of seconds.
use ai_voice.Prelude.{Bool, true, false, String, List, [], ◌∷◌, if◌then◌else◌}
use ai_voice.Prelude.Floats.{Floats}

pub record LatencyLedger (F : Type 0) : Type 0 where
  pub vad_ms : F
  pub stt_partial_ms : F
  pub llm_first_token_ms : F
  pub tts_first_chunk_ms : F

-- What is timed while a turn listens: the start of speech that a frame's detection reports, and a partial.
pub data Heard (F : Type 0) : Type 0 where
  speech_started partial_came : F → Heard F

-- What is timed while it speaks: a token that the synthesis is given, and a chunk that is yielded.
pub data Said (F : Type 0) : Type 0 where
  token_passed chunk_yielded : F → Said F

-- The variables `vad_ms`, `vad_seen`, `stt_partial_ms` and `stt_seen`.
pub record Listening (F : Type 0) : Type 0 where
  pub vad_ms : F
  pub vad_seen : Bool
  pub stt_partial_ms : F
  pub stt_seen : Bool

-- The variables `llm_first_token_ms`, `llm_seen`, `tts_first_chunk_ms` and `tts_seen`.
pub record Replying (F : Type 0) : Type 0 where
  pub llm_first_token_ms : F
  pub llm_seen : Bool
  pub tts_first_chunk_ms : F
  pub tts_seen : Bool

module _ {F : Type 0} (floats : Floats F) where
  unfoldable pub total_ms : LatencyLedger F → F
  total_ms l =
      floats.add (floats.add (floats.add l.vad_ms l.stt_partial_ms) l.llm_first_token_ms)
        l.tts_first_chunk_ms

  unfoldable pub within_slo : F → LatencyLedger F → Bool
  within_slo budget_ms l = floats.leq (total_ms l) budget_ms

  unfoldable pub breakdown : LatencyLedger F → List (String × F)
  breakdown l =
      ("vad_ms", l.vad_ms)
      ∷ ("stt_partial_ms", l.stt_partial_ms)
      ∷ ("llm_first_token_ms", l.llm_first_token_ms)
      ∷ ("tts_first_chunk_ms", l.tts_first_chunk_ms)
      ∷ ("total_ms", total_ms l)
      ∷ []

  -- (time.monotonic() - t) * 1000
  unfoldable pub ms_since : F → F → F
  ms_since t now = floats.mul (floats.sub now t) (floats.of_nat 1000)

  unfoldable pub not_heard : Listening F
  not_heard = record {
    vad_ms = floats.of_nat 0;
    vad_seen = false;
    stt_partial_ms = floats.of_nat 0;
    stt_seen = false;
  }

  unfoldable pub hear : F → Heard F → Listening F → Listening F
  hear t0 (speech_started now) l =
      if l.vad_seen then l else record l { vad_ms = ms_since t0 now; vad_seen = true }
  hear t0 (partial_came now) l =
      if l.stt_seen
      then l
      else record l { stt_partial_ms = floats.sub (ms_since t0 now) l.vad_ms; stt_seen = true }

  unfoldable pub hear_all : F → List (Heard F) → Listening F → Listening F
  hear_all t0 [] l = l
  hear_all t0 (e ∷ es) l = hear_all t0 es (hear t0 e l)

  unfoldable pub not_replied : Replying F
  not_replied = record {
    llm_first_token_ms = floats.of_nat 0;
    llm_seen = false;
    tts_first_chunk_ms = floats.of_nat 0;
    tts_seen = false;
  }

  unfoldable pub reply_event : F → Said F → Replying F → Replying F
  reply_event t_stt_done (token_passed now) r =
      if r.llm_seen
      then r
      else record r { llm_first_token_ms = ms_since t_stt_done now; llm_seen = true }
  reply_event t_stt_done (chunk_yielded now) r =
      let t_llm_first_token =
        floats.add t_stt_done (floats.div r.llm_first_token_ms (floats.of_nat 1000)) in
      if r.tts_seen
      then r
      else record r { tts_first_chunk_ms = ms_since t_llm_first_token now; tts_seen = true }

  unfoldable pub reply_all : F → List (Said F) → Replying F → Replying F
  reply_all t_stt_done [] r = r
  reply_all t_stt_done (e ∷ es) r = reply_all t_stt_done es (reply_event t_stt_done e r)

  -- `self.last_ledger` in `finally`
  unfoldable pub last_ledger : Listening F → Replying F → LatencyLedger F
  last_ledger l r = record {
    vad_ms = l.vad_ms;
    stt_partial_ms = l.stt_partial_ms;
    llm_first_token_ms = r.llm_first_token_ms;
    tts_first_chunk_ms = r.tts_first_chunk_ms;
  }
