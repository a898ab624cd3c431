-- ===== src/LeadScore/Disclosure.antt =====
-- `score_lead` of saap/verticals/realestate/lead_score.py as a lead tells more.
use ai_voice.Prelude.{ℕ, ◌≤◌, ◌≡◌, true, arith}
use ai_voice.LeadScore.{
  LeadScoreFields, has_amount, is_set, is_timeline, LeadScore, hot, warm, cold, score_lead,
}

abbrev pub rank : LeadScore → ℕ
rank cold = 0
rank warm = 1
rank hot = 2

-- Whatever a lead discloses of what it had left open, its score does not fall.
pub score_lead-disclose :
    (fields more : LeadScoreFields)
    → (has_amount fields.budget ≡ true → has_amount more.budget ≡ true)
    → (is_timeline "immediate" fields.timeline ≡ true
        → is_timeline "immediate" more.timeline ≡ true)
    → (is_timeline "1-3mo" fields.timeline ≡ true → is_timeline "1-3mo" more.timeline ≡ true)
    → (is_set fields.preapproved ≡ true → is_set more.preapproved ≡ true)
    → rank (score_lead fields) ≤ rank (score_lead more)
unfolding score_lead
score_lead-disclose fields more b i s p = ground arith
