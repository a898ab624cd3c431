-- ===== src/LeadScore.antt =====
-- saap/verticals/realestate/lead_score.py: the fields of a lead, their extraction and the score. The model
-- and the validation of its JSON are parameters.
pub mod Disclosure
use ai_voice.Prelude.{
  ℕ, zero, suc, Bool, true, false, ◌&&◌, ◌||◌, String, Option, none, some, ◌==◌, string_eq,
  if◌then◌else◌,
}
use ai_voice.Prelude.Exec.{Result, ok, err, Exec, pure, raise, ◌>>=◌}

-- Python's `int`.
pub data Integer : Type 0 where
  pos negsuc : ℕ → Integer

pub record LeadScoreFields : Type 0 where
  pub budget : Option Integer
  pub timeline : Option String
  pub preapproved : Option Bool
  pub bedrooms : Option Integer

-- The truth of a number that may be missing, and of a flag.
unfoldable pub has_amount : Option Integer → Bool
has_amount none = false
has_amount (some (pos zero)) = false
has_amount (some (pos (suc n))) = true
has_amount (some (negsuc n)) = true

unfoldable pub is_set : Option Bool → Bool
is_set none = false
is_set (some b) = b

unfoldable pub is_timeline : String → Option String → Bool
is_timeline wanted none = false
is_timeline wanted (some t) = t == wanted

pub data LeadScore : Type 0 where
  hot warm cold : LeadScore

unfoldable pub score_lead : LeadScoreFields → LeadScore
score_lead fields =
    if is_set fields.preapproved
      && (is_timeline "immediate" fields.timeline && has_amount fields.budget)
    then hot
    else if has_amount fields.budget
        || (is_timeline "immediate" fields.timeline || is_timeline "1-3mo" fields.timeline)
    then warm
    else cold

pub data ExtractionError (E : Type 0) : Type 0 where
  extraction_failed : String → ExtractionError E
  provider_error : E → ExtractionError E

-- `extract`, over the completion of the prompt and the validation of its text.
unfoldable pub extract :
    {E S : Type 0}
    → (String → Exec (ExtractionError E) S String)
    → (String → Option LeadScoreFields)
    → (String → String)
    → String
    → Exec (ExtractionError E) S LeadScoreFields
extract generate validate prompt conversation = generate (prompt conversation) >>= λ text.
    elim (validate text) [ none ↦ raise (extraction_failed text) | some fields ↦ pure fields ]
