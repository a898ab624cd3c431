-- ===== src/Voice.antt =====
-- saap/voice/session_runtime.py: one turn of a call, with its barge-in. The speech engines and the dialog
-- are parameters, by what they produce in the order in which it arrives; `str.strip` is one too. The
-- latency ledger, of floating-point times, is left out.
pub mod Turn
pub mod Latency
use ai_voice.Prelude.{
  Bool, true, false, String, List, [], ◌∷◌, ◌++◌, ◌==◌, string_eq, if◌then◌else◌,
}

-- saap/core/voice.py; the confidence is not read.
pub record SttPartial : Type 0 where
  pub text : String
  pub is_final : Bool

-- What reaches a turn while it speaks: a token of the dialog's, which the synthesis has asked for, a
-- chunk of audio, the caller's voice (`notify_barge_in`), and an exception of an engine.
pub data TurnEvent : Type 0 where
  token chunk : String → TurnEvent
  barge_in : TurnEvent
  failure : TurnEvent

-- The attributes `_speaking` and `_barge_in`, the tokens that the synthesis got, the chunks that were
-- yielded, and whether the dialog's stream was left.
pub record VoiceSession : Type 0 where
  pub speaking : Bool
  pub interrupted : Bool
  pub spoken_tokens : List String
  pub yielded : List String
  pub dialog_left : Bool

-- `notify_barge_in`
unfoldable pub notify_barge_in : VoiceSession → VoiceSession
notify_barge_in s = if s.speaking then record s { interrupted = true } else s

-- The text of the last final partial, from the one so far.
unfoldable pub utterance_of : String → List SttPartial → String
utterance_of utterance [] = utterance
utterance_of utterance (p ∷ ps) = utterance_of (if p.is_final then p.text else utterance) ps

-- One round of `dialog_tokens`: it returns at an interruption, and yields nothing afterwards.
unfoldable pub take_token : String → VoiceSession → VoiceSession
take_token t s =
    if s.dialog_left
    then s
    else if s.interrupted
    then record s { dialog_left = true }
    else record s { spoken_tokens = s.spoken_tokens ++ t ∷ [] }

-- `finally`
unfoldable pub stop_speaking : VoiceSession → VoiceSession
stop_speaking s = record s { speaking = false }

-- The loop over the chunks, with what arrives in between.
unfoldable pub speak : List TurnEvent → VoiceSession → VoiceSession
speak [] s = stop_speaking s
speak (token t ∷ events) s = speak events (take_token t s)
speak (barge_in ∷ events) s = speak events (notify_barge_in s)
speak (failure ∷ events) s = stop_speaking s
speak (chunk c ∷ events) s = elim s.interrupted [
  | true ↦ stop_speaking s
  | false ↦ speak events (record s { yielded = s.yielded ++ c ∷ [] })
]

-- `run_turn`: a turn without an utterance does not speak.
unfoldable pub run_turn :
    (String → String) → List SttPartial → List TurnEvent → VoiceSession → VoiceSession
run_turn strip partials events s =
    let fresh = record s { spoken_tokens = []; yielded = []; dialog_left = false } in
    if strip (utterance_of "" partials) == ""
    then fresh
    else speak events (record fresh { speaking = true; interrupted = false })
