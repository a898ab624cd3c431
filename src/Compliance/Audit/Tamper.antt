-- ===== src/Compliance/Audit/Tamper.antt =====
-- `verify_chain` of saap/compliance/audit.py on rows that were edited after they were stored.
use ai_voice.Prelude.{
  ◌≡◌, ◌≢◌, refl, sym, ◌∙◌, String, List, [], ◌∷◌, ◌++◌, map, arith, string_eq, str_eq_iff,
}
use ai_voice.Prelude.Text.{append-left_cancel}
use ai_voice.Prelude.Exec.{ok, err}
use ai_voice.Compliance.Platform.{Platform, IsCollisionFree}
use ai_voice.Compliance.Audit.{AuditRow, last_row_hash, compute_row_hash, row_differs, verify_rows}

module _ (p : Platform) where
  verify_rows-append :
      (pre rest : List AuditRow) (prev : String)
      → verify_rows p prev (pre ++ rest) ≡ ok tt
      → verify_rows p (last_row_hash prev pre) rest ≡ ok tt
  unfolding verify_rows last_row_hash
  verify_rows-append [] rest prev h = h
  verify_rows-append (r ∷ pre) rest prev h = ground (arith, verify_rows-append pre rest r.row_hash)

  verify_rows_reaches :
      (pre rest other : List AuditRow) (prev : String)
      → verify_rows p prev (pre ++ rest) ≡ ok tt
      → verify_rows p prev (pre ++ other) ≡ verify_rows p (last_row_hash prev pre) other
  unfolding verify_rows last_row_hash
  verify_rows_reaches [] rest other prev h = refl
  verify_rows_reaches (r ∷ pre) rest other prev h =
      ground (arith, verify_rows_reaches pre rest other r.row_hash)

  -- Rows that were stored, and verify, still do when any number of the last ones are gone.
  pub verify_rows-truncate :
      (pre rest : List AuditRow) (prev : String)
      → verify_rows p prev (pre ++ rest) ≡ ok tt
      → verify_rows p prev pre ≡ ok tt
  unfolding verify_rows
  verify_rows-truncate [] rest prev h = refl
  verify_rows-truncate (r ∷ pre) rest prev h =
      ground (arith, verify_rows-truncate pre rest r.row_hash)

  -- A row that verifies has the hash of its content, and names the hash before it.
  verify_rows-cons :
      (row : AuditRow) (rest : List AuditRow) (prev : String)
      → verify_rows p prev (row ∷ rest) ≡ ok tt
      → (compute_row_hash p prev row.tenant_id row.kind row.payload ≡ row.row_hash)
        × (row.prev_hash ≡ prev)
        × (verify_rows p row.row_hash rest ≡ ok tt)
  unfolding verify_rows row_differs
  verify_rows-cons row rest prev h = ground (
    arith,
    str_eq_iff (compute_row_hash p prev row.tenant_id row.kind row.payload) row.row_hash,
    str_eq_iff row.prev_hash prev,
  )

  abbrev pub canonical : AuditRow → String
  canonical row = p.dumps row.tenant_id row.kind row.payload

  compute_row_hash_inj :
      (safe : IsCollisionFree p) (prev : String) (a b : AuditRow)
      → compute_row_hash p prev a.tenant_id a.kind a.payload
        ≡ compute_row_hash p prev b.tenant_id b.kind b.payload
      → canonical a ≡ canonical b
  unfolding compute_row_hash
  compute_row_hash_inj safe prev a b h =
      append-left_cancel prev (canonical a) (canonical b) (safe.sha256_inj _ _ h)

  -- Where SHA-256 has no collision: an edit of a stored row that changes its JSON text and leaves
  -- the stored hash is reported, and reported at that row.
  pub verify_rows_detects_edit :
      (safe : IsCollisionFree p) (pre rest : List AuditRow) (row edited : AuditRow) (prev : String)
      → verify_rows p prev (pre ++ row ∷ rest) ≡ ok tt
      → edited.row_hash ≡ row.row_hash
      → canonical edited ≢ canonical row
      → verify_rows p prev (pre ++ edited ∷ rest)
        ≡ err (record { tenant_id = edited.tenant_id; row_id = edited.row_id })
  unfolding verify_rows row_differs
  verify_rows_detects_edit safe pre rest row edited prev h kept changed =
      let before = last_row_hash prev pre in
      let (hashed, _, _) =
        verify_rows-cons row rest before (verify_rows-append pre (row ∷ rest) prev h) in
      verify_rows_reaches pre (row ∷ rest) (edited ∷ rest) prev h
      ∙ ground (
        arith,
        hashed,
        compute_row_hash_inj safe before edited row,
        str_eq_iff (compute_row_hash p before edited.tenant_id edited.kind edited.payload)
            edited.row_hash,
      )

  -- A row that is not the last and gets another hash, recomputed or not, is detected too: by the
  -- next row, which names the hash that was stored.
  pub verify_rows_detects_rehash :
      (pre rest : List AuditRow) (row edited next : AuditRow) (prev : String)
      → verify_rows p prev (pre ++ row ∷ next ∷ rest) ≡ ok tt
      → edited.row_hash ≢ row.row_hash
      → verify_rows p prev (pre ++ edited ∷ next ∷ rest) ≢ ok tt
  verify_rows_detects_rehash pre rest row edited next prev h changed k =
      let before = last_row_hash prev pre in
      let (_, _, after) =
        verify_rows-cons row (next ∷ rest) before
          (verify_rows-append pre (row ∷ next ∷ rest) prev h) in
      let (_, _, after') =
        verify_rows-cons edited (next ∷ rest) before
          (verify_rows-append pre (edited ∷ next ∷ rest) prev k) in
      let (_, named, _) = verify_rows-cons next rest row.row_hash after in
      let (_, named', _) = verify_rows-cons next rest edited.row_hash after' in
      changed (sym named' ∙ named)

  -- Row ids are under no hash: whatever they are changed to, a chain that verifies still does.
  pub verify_rows-relabel :
      (relabel : AuditRow → String) (rows : List AuditRow) (prev : String)
      → verify_rows p prev rows ≡ ok tt
      → verify_rows p prev (map {A = AuditRow} (λ r. record r { row_id = relabel r }) rows) ≡ ok tt
  unfolding verify_rows row_differs
  verify_rows-relabel relabel [] prev h = refl
  verify_rows-relabel relabel (r ∷ rows) prev h =
      ground (arith, verify_rows-relabel relabel rows r.row_hash)
