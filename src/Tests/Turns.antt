-- ===== src/Tests/Turns.antt =====
-- A resource of a tenant, and an interrupted call.
use ai_voice.Prelude.{◌≡◌, refl, Bool, true, false, not, List, [], ◌∷◌, arith, if◌then◌else◌}
use ai_voice.Tenancy.{TenantBlueprint, ProvisionRecord, Resource}
use ai_voice.Tenancy.Reapply.{IsLawful}
use ai_voice.Voice.{
  SttPartial, TurnEvent, token, chunk, barge_in, VoiceSession, utterance_of, run_turn,
}
use ai_voice.Voice.Turn.{run_turn-undisturbed}

abbrev dental : TenantBlueprint
dental = record {
  name = "acme";
  vertical = "dental";
  locales = [];
  flows = [];
  mcp_servers = [];
  rag_sources = [];
  campaigns = [];
  policy_packs = [];
  consent_purposes = [];
  branding = [];
}

-- The world is whether the tenant's schema is there.
abbrev report : Bool → ProvisionRecord
report changed = record { provisioner = "schema"; tenant_id = "t"; changed = changed; detail = "" }

abbrev schema : Resource Bool
schema = record {
  name = "schema";
  apply_one =
      λ tenant blueprint dry_run there. (report (not there), if dry_run then there else true);
  destroy_one = λ tenant there. false;
}

abbrev IsThere : Resource Bool → Bool → Type 0
IsThere p there = there ≡ true

schema-IsLawful : IsLawful "t" dental IsThere schema
schema-IsLawful = record {
  applied = λ there. refl;
  kept = λ dry_run there h. (ground arith, ground arith);
}

abbrev quiet : VoiceSession
quiet = record {
  speaking = false;
  interrupted = true;
  spoken_tokens = [];
  yielded = [];
  dialog_left = false;
}

abbrev asked : List SttPartial
asked = record { text = "book"; is_final = true } ∷ []

abbrev cut_off : List TurnEvent
cut_off = token "sure" ∷ chunk "a1" ∷ barge_in ∷ token "so" ∷ chunk "a2" ∷ []

run_turn-undisturbed_example :
    ((run_turn (λ s. s) asked cut_off quiet).speaking ≡ false)
    × ((run_turn (λ s. s) asked cut_off quiet).spoken_tokens ≡ "sure" ∷ [])
    × ((run_turn (λ s. s) asked cut_off quiet).yielded ≡ "a1" ∷ [])
unfolding utterance_of
run_turn-undisturbed_example = run_turn-undisturbed (λ s. s) asked cut_off quiet refl
