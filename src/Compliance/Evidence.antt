-- ===== src/Compliance/Evidence.antt =====
-- saap/compliance/evidence_pack.py. The instants of the pack and of its check are left out: nothing
-- reads them.
pub mod Intact
use ai_voice.Prelude.{Bool, true, false, String, Option, none, some, List, []}
use ai_voice.Prelude.Exec.{Result, ok, err}
use ai_voice.Core.Types.{TenantContext}
use ai_voice.Compliance.Platform.{Platform}
use ai_voice.Compliance.Audit.{AuditStore, TamperDetected, verify_chain}
use ai_voice.Compliance.Breach.{BreachAlert, tamper_text}
use ai_voice.Compliance.Erasure.{ErasureCertificate}

pub record AuditChainVerification : Type 0 where
  pub tenant_id : String
  pub passed : Bool
  pub tamper_detail : Option String

pub record EvidencePack : Type 0 where
  pub tenant_id : String
  pub erasure_certificates : List ErasureCertificate
  pub breach_alerts : List BreachAlert
  pub audit_chain_verification : AuditChainVerification
  pub encryption_attestations : List String
  pub processor_contracts : List String

unfoldable pub verification_of : String → Result TamperDetected (Unit {0}) → AuditChainVerification
verification_of tenant_id (ok _) = record {
  tenant_id = tenant_id;
  passed = true;
  tamper_detail = none;
}
verification_of tenant_id (err exc) = record {
  tenant_id = tenant_id;
  passed = false;
  tamper_detail = some (tamper_text exc);
}

unfoldable pub build_evidence_pack :
    Platform
    → TenantContext
    → AuditStore
    → List ErasureCertificate
    → List BreachAlert
    → EvidencePack
build_evidence_pack p tenant audit_store erasure_certificates breach_alerts = record {
  tenant_id = tenant.tenant_id;
  erasure_certificates = erasure_certificates;
  breach_alerts = breach_alerts;
  audit_chain_verification =
      verification_of tenant.tenant_id (verify_chain p audit_store tenant.tenant_id);
  encryption_attestations = [];
  processor_contracts = [];
}
