-- ===== src/Compliance/Pii/Presidio.antt =====
-- The analyzer of saap/compliance/pii.py over Presidio, whose engine is a parameter, as `str.lower` is. A score is a
-- floating-point number.
use ai_voice.Prelude.{ℕ, ◌-◌, String, Option, none, some, List, map, ◌++◌}
use ai_voice.Prelude.Text.{append, text_take, text_drop}
use ai_voice.Compliance.Pii.{Pattern, recognizer_patterns, vertical_patterns, DetectedEntity}

-- `PatternRecognizer`, with the one pattern that it has.
pub record Recognizer (F : Type 0) : Type 0 where
  pub supported_entity : String
  pub pattern_name : String
  pub regex : Pattern
  pub score : F

-- `RecognizerResult`
pub record EngineResult : Type 0 where
  pub entity_type : String
  pub start : ℕ
  pub end : ℕ

module _ {F : Type 0} (lower : String → String) (score_085 : F) where
  unfoldable pub build_recognizers : List (String × Pattern) → List (Recognizer F)
  build_recognizers patterns =
      map
        (λ (p : String × Pattern). record {
          supported_entity = p.0;
          pattern_name = append (lower p.0) "_pattern";
          regex = p.1;
          score = score_085;
        })
        patterns

  unfoldable pub build_indian_recognizers : List (Recognizer F)
  build_indian_recognizers = build_recognizers recognizer_patterns

  unfoldable pub build_vertical_recognizers : String → List (Recognizer F)
  build_vertical_recognizers vertical = build_recognizers (vertical_patterns (some vertical))

  -- The recognizers that `__init__` adds to the engine's own.
  unfoldable pub added_recognizers : Option String → List (Recognizer F)
  added_recognizers vertical =
      build_indian_recognizers
      ++ build_vertical_recognizers (elim vertical [ none ↦ "" | some v ↦ v ])

  -- `engine` finds what its recognizers do.
  unfoldable pub presidio_analyze :
      (List (Recognizer F) → String → List EngineResult)
      → Option String
      → String
      → List DetectedEntity
  presidio_analyze engine vertical text =
      map
        (λ (r : EngineResult). record {
          entity_type = r.entity_type;
          start = r.start;
          end = r.end;
          matched = text_take (r.end - r.start) (text_drop r.start text);
        })
        (engine (added_recognizers vertical) text)
