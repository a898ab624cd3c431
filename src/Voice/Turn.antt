-- ===== src/Voice/Turn.antt =====
-- Barge-in, in `run_turn` of saap/voice/session_runtime.py.
use mathlib.Core.List.{append-nil, append_assoc}
use ai_voice.Prelude.{
  ◌≡◌, refl, sym, ◌∙◌, Bool, true, false, String, List, [], ◌∷◌, ◌++◌, ◌==◌, string_eq,
}
use ai_voice.Voice.{
  SttPartial, TurnEvent, token, chunk, barge_in, failure, VoiceSession, notify_barge_in,
  utterance_of, take_token, stop_speaking, speak, run_turn,
}

-- What arrives before the caller speaks or an engine fails.
abbrev pub undisturbed : List TurnEvent → List TurnEvent
undisturbed [] = []
undisturbed (token t ∷ events) = token t ∷ undisturbed events
undisturbed (chunk c ∷ events) = chunk c ∷ undisturbed events
undisturbed (barge_in ∷ events) = []
undisturbed (failure ∷ events) = []

abbrev pub chunks_of : List TurnEvent → List String
chunks_of [] = []
chunks_of (chunk c ∷ events) = c ∷ chunks_of events
chunks_of (token t ∷ events) = chunks_of events
chunks_of (barge_in ∷ events) = chunks_of events
chunks_of (failure ∷ events) = chunks_of events

abbrev pub tokens_of : List TurnEvent → List String
tokens_of [] = []
tokens_of (token t ∷ events) = t ∷ tokens_of events
tokens_of (chunk c ∷ events) = tokens_of events
tokens_of (barge_in ∷ events) = tokens_of events
tokens_of (failure ∷ events) = tokens_of events

abbrev session : Bool → Bool → List String → List String → Bool → VoiceSession
session speaking interrupted spoken yielded left = record {
  speaking = speaking;
  interrupted = interrupted;
  spoken_tokens = spoken;
  yielded = yielded;
  dialog_left = left;
}

-- How a turn ends: silent, with these tokens passed on and these chunks yielded.
abbrev Ends : List String → List String → VoiceSession → Type 0
Ends spoken yielded s = (s.speaking ≡ false) × (s.spoken_tokens ≡ spoken) × (s.yielded ≡ yielded)

speak_interrupted :
    (events : List TurnEvent) (spoken yielded : List String) (left : Bool)
    → Ends spoken yielded (speak events (session true true spoken yielded left))
unfolding speak take_token notify_barge_in stop_speaking
speak_interrupted [] spoken yielded left = (refl, refl, refl)
speak_interrupted (token t ∷ events) spoken yielded true =
    speak_interrupted events spoken yielded true
speak_interrupted (token t ∷ events) spoken yielded false =
    speak_interrupted events spoken yielded true
speak_interrupted (chunk c ∷ events) spoken yielded left = (refl, refl, refl)
speak_interrupted (barge_in ∷ events) spoken yielded left =
    speak_interrupted events spoken yielded left
speak_interrupted (failure ∷ events) spoken yielded left = (refl, refl, refl)

speak-Ends :
    (events : List TurnEvent) (spoken yielded : List String)
    → Ends
        (spoken ++ tokens_of (undisturbed events))
        (yielded ++ chunks_of (undisturbed events))
        (speak events (session true false spoken yielded false))
unfolding speak take_token notify_barge_in stop_speaking
speak-Ends [] spoken yielded = (refl, sym (append-nil spoken), sym (append-nil yielded))
speak-Ends (token t ∷ events) spoken yielded =
    let (quiet, tokens, chunks) = speak-Ends events (spoken ++ t ∷ []) yielded in
    (quiet, tokens ∙ append_assoc spoken (t ∷ []) (tokens_of (undisturbed events)), chunks)
speak-Ends (chunk c ∷ events) spoken yielded =
    let (quiet, tokens, chunks) = speak-Ends events spoken (yielded ++ c ∷ []) in
    (quiet, tokens, chunks ∙ append_assoc yielded (c ∷ []) (chunks_of (undisturbed events)))
speak-Ends (barge_in ∷ events) spoken yielded =
    let (quiet, tokens, chunks) = speak_interrupted events spoken yielded false in
    (quiet, tokens ∙ sym (append-nil spoken), chunks ∙ sym (append-nil yielded))
speak-Ends (failure ∷ events) spoken yielded =
    (refl, sym (append-nil spoken), sym (append-nil yielded))

-- A turn with an utterance yields exactly the audio, and passes on exactly the tokens, that arrived
-- before the caller spoke or an engine failed, and is not speaking afterwards; whatever the session
-- was before, an old interruption included.
pub run_turn-undisturbed :
    (strip : String → String) (partials : List SttPartial) (events : List TurnEvent)
    (s : VoiceSession)
    → (strip (utterance_of "" partials) == "") ≡ false
    → (let s' = run_turn strip partials events s in
        (s'.speaking ≡ false)
        × (s'.spoken_tokens ≡ tokens_of (undisturbed events))
        × (s'.yielded ≡ chunks_of (undisturbed events)))
unfolding run_turn
run_turn-undisturbed strip partials events s h = rw (h) (speak-Ends events [] [])
