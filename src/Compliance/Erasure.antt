-- ===== src/Compliance/Erasure.antt =====
-- saap/compliance/erasure.py: the tear-down of one source and its signed certificate. The vector
-- store, whose deletion may raise, HMAC-SHA256 and the certificate's JSON text are parameters.
pub mod Proof
use ai_voice.Prelude.{ℕ, suc, Bool, true, String, List, [], ◌∷◌, ◌==◌, string_eq}
use ai_voice.Prelude.Text.{str_int}
use ai_voice.Prelude.Exec.{ok, Exec, continue}
use ai_voice.Core.Types.{TenantContext, Value, text, opaque}
use ai_voice.Compliance.Platform.{Platform}
use ai_voice.Compliance.Audit.{AuditStore, append_row}
use ai_voice.Compliance.Pii.{TokenVault, destroy_all}

-- The fields of `ErasureCertificate` but its signature.
pub record CertificateBody : Type 0 where
  pub certificate_id : String
  pub tenant_id : String
  pub source_uri : String
  pub chunks_deleted : ℕ
  pub vault_destroyed : Bool
  pub audit_row_id : String
  pub audit_row_hash : String
  pub issued_at : String

pub record ErasureCertificate : Type 0 where
  pub body : CertificateBody
  pub signature : String

-- The objects that the service holds, and how many certificates it has issued.
pub record ErasureState (V : Type 0) : Type 0 where
  pub vectors : V
  pub vault : TokenVault
  pub audit : AuditStore
  pub issued : ℕ

-- hmac.new(key, payload, sha256).hexdigest(), and json.dumps of the certificate without the
-- signature, as `certificate_payload_bytes` calls it
pub record Signing : Type 0 where
  pub hmac : (key payload : String) → String
  pub payload_bytes : CertificateBody → String
  pub key : String

-- `HMACCertificateSigner`
unfoldable pub sign : Signing → String → String
sign signing payload = signing.hmac signing.key payload

unfoldable pub verify : Signing → String → String → Bool
unfolding sign
verify signing payload signature = sign signing payload == signature

unfoldable pub verify_certificate : Signing → ErasureCertificate → Bool
unfolding verify
verify_certificate signing certificate =
    verify signing (signing.payload_bytes certificate.body) certificate.signature

module _ {V E : Type 0} (p : Platform) (signing : Signing)
    (delete_by_source : TenantContext → String → Exec E V ℕ) where
  -- What `erase` does behind the deletion.
  unfoldable pub certify :
      TenantContext → String → String → ℕ → Exec E (ErasureState V) ErasureCertificate
  unfolding sign
  certify tenant source_uri now chunks_deleted s =
      let (audit_row, audit) =
        append_row p tenant.tenant_id "erasure"
          (("source_uri", text source_uri)
            ∷ ("chunks_deleted", opaque (str_int chunks_deleted))
            ∷ [])
          s.audit in
      let body : CertificateBody = record {
        certificate_id = p.uuid4 s.issued;
        tenant_id = tenant.tenant_id;
        source_uri = source_uri;
        chunks_deleted = chunks_deleted;
        vault_destroyed = true;
        audit_row_id = audit_row.row_id;
        audit_row_hash = audit_row.row_hash;
        issued_at = now;
      } in
      (
        ok (record { body = body; signature = sign signing (signing.payload_bytes body) }),
        record s { vault = destroy_all s.vault; audit = audit; issued = suc s.issued },
      )

  unfoldable pub erase :
      TenantContext → String → String → Exec E (ErasureState V) ErasureCertificate
  unfolding certify
  erase tenant source_uri now s =
      let (r, vectors) = delete_by_source tenant source_uri s.vectors in
      continue r (certify tenant source_uri now) (record s { vectors = vectors })
