-- ===== src/Compliance/Erasure/Proof.antt =====
-- `ErasureService.erase` of saap/compliance/erasure.py and the certificate it issues.
use ai_voice.Prelude.{ℕ, true, ◌≡◌, refl, ◌∙◌, String, none, List, [], ◌∷◌, ◌++◌, string_eq}
use ai_voice.Prelude.Dict.{beq_refl, lookup}
use ai_voice.Prelude.Exec.{ok, Exec}
use ai_voice.Core.Types.{TenantContext}
use ai_voice.Compliance.Platform.{Platform}
use ai_voice.Compliance.Audit.{
  AuditRow, AuditStore, Payload, append_row, last_hash, last_row_hash, rows_for, genesis_hash,
  verify_chain,
}
use ai_voice.Compliance.Audit.Integrity.{rows_for-append_row, verify_chain-append_row}
use ai_voice.Compliance.Pii.{resolve, destroy_all}
use ai_voice.Compliance.Erasure.{
  ErasureState, ErasureCertificate, Signing, sign, verify, verify_certificate, certify, erase,
}

last_row_hash-snoc :
    (prev : String) (rows : List AuditRow) (row : AuditRow)
    → last_row_hash prev (rows ++ row ∷ []) ≡ row.row_hash
unfolding last_row_hash
last_row_hash-snoc prev [] row = refl
last_row_hash-snoc prev (r ∷ rows) row = last_row_hash-snoc r.row_hash rows row

last_hash-append_row :
    (p : Platform) (tenant_id kind : String) (payload : Payload) (store : AuditStore)
    → last_hash (append_row p tenant_id kind payload store).1 tenant_id
      ≡ (append_row p tenant_id kind payload store).0.row_hash
unfolding last_hash
last_hash-append_row p tenant_id kind payload store =
    let row = (append_row p tenant_id kind payload store).0 in
    let rows : rows_for (append_row p tenant_id kind payload store).1 tenant_id
        ≡ rows_for store tenant_id ++ row ∷ [] =
      rows_for-append_row p tenant_id kind payload store tenant_id
      ∙ rw (beq_refl {K = String} tenant_id) refl in
    rw (rows) (last_row_hash-snoc genesis_hash (rows_for store tenant_id) row)

module _ {V E : Type 0} (p : Platform) (signing : Signing)
    (delete_by_source : TenantContext → String → Exec E V ℕ) where
  -- Where the vector store deletes the source and does not raise, an erasure returns a certificate
  -- that verifies and has the number of deleted chunks; it names the hash that the tenant's audit
  -- chain ends with, that chain still verifies if it did, and no token of the vault resolves any more.
  pub erase-proof :
      (tenant : TenantContext) (source_uri now : String) (s : ErasureState V) (token : String)
      (deleted : ℕ) (vectors : V)
      → delete_by_source tenant source_uri s.vectors ≡ (ok deleted, vectors)
      → verify_chain p s.audit tenant.tenant_id ≡ ok tt
      → (certificate : ErasureCertificate) × ((erase p signing delete_by_source tenant source_uri
            now s).0
          ≡ ok certificate)
        × (let s' = (erase p signing delete_by_source tenant source_uri now s).1 in
            (verify_certificate signing certificate ≡ true)
            × (certificate.body.chunks_deleted ≡ deleted)
            × (last_hash s'.audit tenant.tenant_id ≡ certificate.body.audit_row_hash)
            × (verify_chain p s'.audit tenant.tenant_id ≡ ok tt)
            × (resolve p s'.vault token ≡ ok none))
  unfolding erase certify verify_certificate verify sign resolve destroy_all lookup
  erase-proof tenant source_uri now s token deleted vectors gone h = rw gone (
    _,
    refl,
    (
      beq_refl {K = String} _,
      refl,
      last_hash-append_row p tenant.tenant_id "erasure" _ s.audit,
      verify_chain-append_row p tenant.tenant_id "erasure" _ s.audit tenant.tenant_id h,
      refl,
    ),
  )
