-- ===== src/Tests/Audit.antt =====
-- An audit chain of two rows, appended, edited and cut.
use ai_voice.Prelude.{texts_differ, ◌≡◌, refl, [], ◌∷◌, ◌++◌, string_eq}
use ai_voice.Prelude.Text.{append}
use ai_voice.Prelude.Exec.{ok, err}
use ai_voice.Compliance.Audit.{
  AuditRow, empty_store, genesis_hash, row_differs, verify_rows, verify_chain, compute_row_hash,
}
use ai_voice.Compliance.Audit.Integrity.{append_all, verify_chain-append_all}
use ai_voice.Compliance.Audit.Tamper.{verify_rows_detects_edit}
use ai_voice.Tests.Fixtures.{plain, plain_safe}

-- A row whose hash is the digest of the hash before it and of its JSON text.
abbrev stored : AuditRow
stored = record {
  row_id = "1";
  tenant_id = "clinic";
  kind = "message";
  payload = [];
  prev_hash = genesis_hash;
  row_hash = "0000000000000000000000000000000000000000000000000000000000000000clinic/message";
}

abbrev following : AuditRow
following = record {
  row_id = "2";
  tenant_id = "clinic";
  kind = "response";
  payload = [];
  prev_hash = "0000000000000000000000000000000000000000000000000000000000000000clinic/message";
  row_hash =
      "0000000000000000000000000000000000000000000000000000000000000000clinic/messageclinic/response";
}

stored_rows_verify : verify_rows plain genesis_hash (stored ∷ following ∷ []) ≡ ok tt
unfolding verify_rows row_differs compute_row_hash append
stored_rows_verify = refl

verify_chain-append_all_example :
    verify_chain plain
      (append_all plain
        (("clinic", "message", []) ∷ ("agency", "message", []) ∷ ("clinic", "response", []) ∷ [])
        empty_store)
      "clinic"
    ≡ ok tt
verify_chain-append_all_example =
    verify_chain-append_all plain
      (("clinic", "message", []) ∷ ("agency", "message", []) ∷ ("clinic", "response", []) ∷ [])
      "clinic"

verify_rows_detects_edit_example :
    verify_rows plain genesis_hash ([] ++ record stored { kind = "refusal" } ∷ following ∷ [])
    ≡ err (record { tenant_id = "clinic"; row_id = "1" })
verify_rows_detects_edit_example =
    verify_rows_detects_edit plain plain_safe [] (following ∷ []) stored
      (record stored { kind = "refusal" }) genesis_hash stored_rows_verify refl
      (unfold append in texts_differ _ _ refl)
