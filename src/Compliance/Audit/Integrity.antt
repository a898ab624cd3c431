-- ===== src/Compliance/Audit/Integrity.antt =====
-- `InMemoryAuditStore` of saap/compliance/audit.py: `append` against `verify_chain`.
use ai_voice.Prelude.{
  ◌≡◌, refl, false, String, List, subst, [], ◌∷◌, ◌++◌, arith, Bool-cases, inl, inr, ◌==◌,
  string_eq, str_eq_iff, if◌then◌else◌,
}
use ai_voice.Prelude.Dict.{lookup, get_or, lookup-insert, beq_refl}
use ai_voice.Prelude.Exec.{ok}
use ai_voice.Compliance.Platform.{Platform}
use ai_voice.Compliance.Audit.{
  AuditRow, AuditStore, Payload, empty_store, genesis_hash, last_row_hash, last_hash, rows_for,
  compute_row_hash, append_row, row_differs, verify_rows, verify_chain,
}

-- What `append` adds to the rows of the tenant, and to those of another.
pub rows_for-append_row :
    (p : Platform) (tenant_id kind : String) (payload : Payload) (store : AuditStore)
    (other : String)
    → rows_for (append_row p tenant_id kind payload store).1 other ≡ (
        if tenant_id == other
        then rows_for store other ++ (append_row p tenant_id kind payload store).0 ∷ []
        else rows_for store other)
unfolding rows_for append_row get_or
rows_for-append_row p tenant_id kind payload store other = ground (
  arith,
  str_eq_iff tenant_id other,
  lookup-insert tenant_id other
      (rows_for store tenant_id ++ (append_row p tenant_id kind payload store).0 ∷ []) store.rows,
)

module _ (p : Platform) where
  row_differs_fresh :
      (prev id tenant_id kind : String) (payload : Payload)
      → row_differs p prev (record {
        row_id = id;
        tenant_id = tenant_id;
        kind = kind;
        payload = payload;
        prev_hash = prev;
        row_hash = compute_row_hash p prev tenant_id kind payload;
      })
        ≡ false
  unfolding row_differs
  row_differs_fresh prev id tenant_id kind payload = simp beq_refl

  verify_rows_snoc :
      (rows : List AuditRow) (prev : String) (row : AuditRow)
      → verify_rows p prev rows ≡ ok tt
      → row_differs p (last_row_hash prev rows) row ≡ false
      → verify_rows p prev (rows ++ row ∷ []) ≡ ok tt
  unfolding verify_rows last_row_hash
  verify_rows_snoc [] prev row h k = ground arith
  verify_rows_snoc (r ∷ rows) prev row h k = ground (arith, verify_rows_snoc rows r.row_hash row)

  verify_rows-append_row :
      (tenant_id kind : String) (payload : Payload) (store : AuditStore)
      → verify_chain p store tenant_id ≡ ok tt
      → verify_rows p genesis_hash
          (rows_for store tenant_id ++ (append_row p tenant_id kind payload store).0 ∷ [])
        ≡ ok tt
  unfolding verify_chain append_row
  verify_rows-append_row tenant_id kind payload store h =
      verify_rows_snoc (rows_for store tenant_id) genesis_hash _ h
        (row_differs_fresh (last_hash store tenant_id) (p.uuid4 store.drawn) tenant_id kind payload)

  -- A chain that verifies still does after any append, for the same tenant and for every other.
  pub verify_chain-append_row :
      (tenant_id kind : String) (payload : Payload) (store : AuditStore) (other : String)
      → verify_chain p store other ≡ ok tt
      → verify_chain p (append_row p tenant_id kind payload store).1 other ≡ ok tt
  unfolding verify_chain
  verify_chain-append_row tenant_id kind payload store other h =
      rw (rows_for-append_row p tenant_id kind payload store other)
        (elim (Bool-cases (tenant_id == other)) [
          | inl same ↦ rw same (
              subst
                (λ u.
                  verify_chain p store u ≡ ok tt
                  → verify_rows p genesis_hash
                      (rows_for store u ++ (append_row p tenant_id kind payload store).0 ∷ [])
                    ≡ ok tt)
                ((str_eq_iff tenant_id other).0 same)
                (verify_rows-append_row tenant_id kind payload store) h)
          | inr differ ↦ rw differ h
        ])

  -- Any number of appends, each for a tenant.
  abbrev pub append_all : List (String × String × Payload) → AuditStore → AuditStore
  append_all [] store = store
  append_all ((tenant_id, kind, payload) ∷ events) store =
      append_all events (append_row p tenant_id kind payload store).1

  append_all_verifies :
      (events : List (String × String × Payload)) (store : AuditStore) (tenant_id : String)
      → verify_chain p store tenant_id ≡ ok tt
      → verify_chain p (append_all events store) tenant_id ≡ ok tt
  append_all_verifies [] store tenant_id h = h
  append_all_verifies ((t, kind, payload) ∷ events) store tenant_id h =
      append_all_verifies events (append_row p t kind payload store).1 tenant_id
        (verify_chain-append_row t kind payload store tenant_id h)

  -- From the empty store, whatever is appended for whichever tenants, every tenant's chain verifies.
  pub verify_chain-append_all :
      (events : List (String × String × Payload)) (tenant_id : String)
      → verify_chain p (append_all events empty_store) tenant_id ≡ ok tt
  verify_chain-append_all events tenant_id =
      append_all_verifies events empty_store tenant_id (unfold verify_chain get_or lookup in refl)
