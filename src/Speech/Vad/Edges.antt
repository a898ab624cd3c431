-- ===== src/Speech/Vad/Edges.antt =====
-- The events that saap/plugins/voice/silero/__init__.py reports over a run of frames.
use ai_voice.Prelude.{
  ◌≡◌, refl, Bool, true, false, String, Option, none, some, List, [], ◌∷◌, ◌++◌, length, nat_beq,
  arith, inl, inr, Bool-cases, if◌then◌else◌,
}
use ai_voice.Prelude.Exec.{Result, ok, err}
use ai_voice.Prelude.Floats.{Floats}
use ai_voice.Speech.Vad.{
  EventKind, speech_start, speech_end, VadEvent, VadConfig, VadState, frame_samples, transition,
  process_frame, process_samples, infer, frame_duration_ms,
}

abbrev pub reported : {F : Type 0} → Result String (Option (VadEvent F)) → List EventKind
reported (ok (some e)) = e.kind ∷ []
reported (ok none) = []
reported (err _) = []

-- Starts and ends by turns, from one state of speaking to another.
pub data Alternates : Bool → List EventKind → Bool → Type 0 where
  quiet : (b : Bool) → Alternates b [] b
  starts :
      {kinds : List EventKind} {b : Bool}
      → Alternates true kinds b
      → Alternates false (speech_start ∷ kinds) b
  ends :
      {kinds : List EventKind} {b : Bool}
      → Alternates false kinds b
      → Alternates true (speech_end ∷ kinds) b

-- The event of a frame whose speech follows what was spoken before it.
abbrev pub edge : Bool → Bool → List EventKind
edge false true = speech_start ∷ []
edge true false = speech_end ∷ []
edge _ _ = []

-- Where a sequence of voiced and unvoiced frames changes.
abbrev pub edges : Bool → List Bool → List EventKind
edges before [] = []
edges before (v ∷ vs) = edge before v ++ edges v vs

abbrev pub last_of : Bool → List Bool → Bool
last_of before [] = before
last_of before (v ∷ vs) = last_of v vs

edge-Alternates :
    (before v : Bool) (kinds : List EventKind) (b : Bool)
    → Alternates v kinds b
    → Alternates before (edge before v ++ kinds) b
edge-Alternates false true kinds b h = starts h
edge-Alternates true false kinds b h = ends h
edge-Alternates false false kinds b h = h
edge-Alternates true true kinds b h = h

edges-Alternates :
    (before : Bool) (vs : List Bool) → Alternates before (edges before vs) (last_of before vs)
edges-Alternates before [] = quiet before
edges-Alternates before (v ∷ vs) =
    edge-Alternates before v (edges v vs) (last_of v vs) (edges-Alternates v vs)

appended : {A : Type 0} {ks ls ms ns : List A} → ks ≡ ls → ms ≡ ns → (ks ++ ms) ≡ (ls ++ ns)
appended h k = cc (h, k)

module _ {F : Type 0} (floats : Floats F) {S B : Type 0} (cfg : VadConfig F)
    (run : List F → S → F × S) (samples_of : B → List F) where
  -- The kinds that calls of `process_frame` report, one for each frame; the caller goes on behind a
  -- `ValueError`.
  abbrev pub event_kinds : List B → VadState S F → List EventKind × VadState S F
  event_kinds [] s = ([], s)
  event_kinds (frame ∷ frames) s =
      let (r, s') = process_frame floats cfg run samples_of frame s in
      let (kinds, s'') = event_kinds frames s' in (reported r ++ kinds, s'')

  -- For each frame of the right size, whether the model finds speech in it.
  abbrev pub voiced : List B → S → List Bool
  voiced [] state = []
  voiced (frame ∷ frames) state =
      let (prob, state') = run (samples_of frame) state in
      let heard = floats.geq prob cfg.threshold ∷ voiced frames state' in
      let missed = voiced frames state in
      if nat_beq (length (samples_of frame)) frame_samples then heard else missed

  reported-edge :
      (before : Bool) (prob threshold elapsed : F)
      → reported (ok (transition floats before prob threshold elapsed).1)
        ≡ edge before (floats.geq prob threshold)
  unfolding transition
  reported-edge true prob threshold elapsed = ground arith
  reported-edge false prob threshold elapsed = ground arith

  pub event_kinds-edges :
      (frames : List B) (s : VadState S F)
      → ((event_kinds frames s).0 ≡ edges s.is_speaking (voiced frames s.state))
        × ((event_kinds frames s).1.is_speaking ≡ last_of s.is_speaking (voiced frames s.state))
  unfolding process_frame process_samples infer transition
  event_kinds-edges [] s = (refl, refl)
  event_kinds-edges (frame ∷ frames) s =
      elim (Bool-cases (nat_beq (length (samples_of frame)) frame_samples)) [
        | inl k ↦
            let p = (run (samples_of frame) s.state).0 in
            let t : VadState S F = record {
              state = (run (samples_of frame) s.state).1;
              is_speaking = floats.geq p cfg.threshold;
              elapsed_ms = floats.add s.elapsed_ms (frame_duration_ms floats cfg.sample_rate);
            } in
            let h = event_kinds-edges frames t in
            rw (k) (appended (reported-edge s.is_speaking p cfg.threshold t.elapsed_ms) h.0, h.1)
        | inr k ↦ rw (k) (event_kinds-edges frames s)
      ]

-- Over any run of frames, those of a wrong size included, what is reported is where the frames of the
-- right size change between voiced and unvoiced, by the model's probabilities; starts and ends take
-- turns; and the detector ends in the state of the last report.
pub event_kinds-Alternates :
    {F : Type 0} (floats : Floats F) {S B : Type 0} (cfg : VadConfig F) (run : List F → S → F × S)
    (samples_of : B → List F) (frames : List B) (s : VadState S F)
    → ((event_kinds floats cfg run samples_of frames s).0
        ≡ edges s.is_speaking (voiced floats cfg run samples_of frames s.state))
      × Alternates s.is_speaking
          (event_kinds floats cfg run samples_of frames s).0
          (event_kinds floats cfg run samples_of frames s).1.is_speaking
event_kinds-Alternates floats cfg run samples_of frames s =
    let (h, k) = event_kinds-edges floats cfg run samples_of frames s in
    (
      h,
      rw (h, k) (edges-Alternates s.is_speaking (voiced floats cfg run samples_of frames s.state)),
    )
