-- ===== src/Compliance/Evidence/Intact.antt =====
-- The pack of saap/compliance/evidence_pack.py over a store that was only appended to.
use ai_voice.Prelude.{◌≡◌, refl, true, String, none, List}
use ai_voice.Core.Types.{TenantContext}
use ai_voice.Compliance.Platform.{Platform}
use ai_voice.Compliance.Audit.{Payload, empty_store}
use ai_voice.Compliance.Audit.Integrity.{append_all, verify_chain-append_all}
use ai_voice.Compliance.Breach.{BreachAlert}
use ai_voice.Compliance.Erasure.{ErasureCertificate}
use ai_voice.Compliance.Evidence.{build_evidence_pack, verification_of}

-- Whatever was appended to an empty store for whichever tenants, the pack of any tenant says that its audit
-- chain passed, and names no tampering.
pub build_evidence_pack-append_all :
    (p : Platform) (tenant : TenantContext) (events : List (String × String × Payload))
    (certificates : List ErasureCertificate) (alerts : List BreachAlert)
    → (build_evidence_pack p tenant
        (append_all p events empty_store)
        certificates
        alerts).audit_chain_verification
      ≡ record { tenant_id = tenant.tenant_id; passed = true; tamper_detail = none }
unfolding build_evidence_pack verification_of
build_evidence_pack-append_all p tenant events certificates alerts =
    rw (verify_chain-append_all p events tenant.tenant_id) refl
