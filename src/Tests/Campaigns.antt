-- ===== src/Tests/Campaigns.antt =====
-- A table of one enrollment, claimed and ticked.
use ai_voice.Prelude.{All, ◌==◌, ◌≤◌, ◌≡◌, Bool, true, String, none, some, List, [], ◌∷◌, string_eq}
use ai_voice.Scheduler.{CampaignEnrollment, EnrollmentState, Rows, tick}
use ai_voice.Scheduler.Claims.{StoreCall, successful_claims, successful_claims-le_one}
use ai_voice.Scheduler.Ticks.{tick_keeps}

abbrev enrollment : CampaignEnrollment
enrollment = record {
  id = "e";
  tenant_id = "clinic";
  principal_id = "p";
  campaign = "recall";
  state = EnrollmentState.pending;
  next_action_at = some 5;
  version = 0;
}

abbrev table : Rows
table = ("e", enrollment) ∷ []

-- Two ticks that read the row at one version, the first of which finishes in between.
successful_claims-le_one_example :
    successful_claims "e"
      (StoreCall.claim_call "e" 0 ∷ StoreCall.complete_call "e" 1 ∷ StoreCall.claim_call "e" 0 ∷ [])
      table
    ≤ 1
successful_claims-le_one_example =
    successful_claims-le_one "e"
      (StoreCall.claim_call "e" 0 ∷ StoreCall.complete_call "e" 1 ∷ StoreCall.claim_call "e" 0 ∷ [])
      table

-- Every dispatch is of a principal with consent.
abbrev consents : String → String → String → List CampaignEnrollment → Bool
consents tenant_id principal_id purpose w = principal_id == "p"

abbrev AllConsented : List CampaignEnrollment → Type 0
AllConsented w = All (λ (e : CampaignEnrollment). (e.principal_id == "p") ≡ true) w

tick_keeps_example : AllConsented (tick consents (λ e w. (none, e ∷ w)) 9 (table, [])).1
tick_keeps_example =
    tick_keeps consents (λ e w. (none, e ∷ w)) {P = AllConsented} (λ e w granted h. (granted, h)) 9
      table [] tt
