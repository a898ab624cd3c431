-- ===== src/Compliance/Consent.antt =====
-- saap/compliance/consent.py: the first stage of the chain.
use ai_voice.Prelude.{Bool, String, none, some, if◌then◌else◌}
use ai_voice.Prelude.Text.{append, repr}
use ai_voice.Prelude.Exec.{ok, err, Exec}
use ai_voice.Core.Types.{TenantContext, has_consent}
use ai_voice.Compliance.Chain.{Failure, violation, Envelope, Interceptor}

-- `ConsentRegistry.has_grant`, which may read the state of the registry.
abbrev pub HasGrant : Type 0 → Type 0
HasGrant S = TenantContext → String → S → Bool

-- `StaticConsentRegistry.has_grant`
unfoldable pub static_has_grant : {S : Type 0} → HasGrant S
static_has_grant tenant purpose s = has_consent tenant purpose

-- envelope.metadata.get("purpose", self._default_purpose)
unfoldable pub required_purpose : String → Envelope → String
required_purpose default_purpose e = elim e.metadata.purpose [ none ↦ default_purpose | some p ↦ p ]

module _ {S : Type 0} (has_grant : HasGrant S) (default_purpose : String) where
  unfoldable pub consent_before : TenantContext → Envelope → Exec Failure S Envelope
  unfolding required_purpose
  consent_before tenant e s =
      let purpose = required_purpose default_purpose e in
      if has_grant tenant purpose s
      then (ok e, s)
      else (err (violation "consent_gate" (append "no consent for purpose " (repr purpose))), s)

  unfoldable pub consent_gate : Interceptor S
  unfolding consent_before
  consent_gate = record {
    name = "consent_gate";
    before = consent_before;
    after = λ tenant e s. (ok e, s);
  }
