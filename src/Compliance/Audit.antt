-- ===== src/Compliance/Audit.antt =====
-- saap/compliance/audit.py: the hash-chained store and the fifth stage.
-- `created_at` of a row is left out: no code reads it, and no hash covers it.
pub mod Tamper
pub mod Integrity
use ai_voice.Prelude.{
  ℕ, suc, Bool, true, false, ◌&&◌, ◌||◌, not, String, Option, none, some, List, [], ◌∷◌, ◌++◌, ◌==◌,
  string_eq, if◌then◌else◌,
}
use ai_voice.Prelude.Dict.{Dict, insert, get_or}
use ai_voice.Prelude.Text.{append}
use ai_voice.Prelude.Exec.{Result, ok, err, Exec, Lens}
use ai_voice.Core.Types.{TenantContext, Message, Role, Value, text, opaque}
use ai_voice.Compliance.Chain.{Failure, Envelope, with_message, Interceptor}
use ai_voice.Compliance.Platform.{Platform}

abbrev pub genesis_hash : String
genesis_hash = "0000000000000000000000000000000000000000000000000000000000000000"

abbrev pub Payload : Type 0
Payload = Dict String Value

pub record AuditRow : Type 0 where
  pub row_id : String
  pub tenant_id : String
  pub kind : String
  pub payload : Payload
  pub prev_hash : String
  pub row_hash : String

-- `InMemoryAuditStore._rows`, and how many row ids have been drawn.
pub record AuditStore : Type 0 where
  pub rows : Dict String (List AuditRow)
  pub drawn : ℕ

-- `TamperDetected(tenant_id, row_id)`
pub record TamperDetected : Type 0 where
  pub tenant_id : String
  pub row_id : String

abbrev pub empty_store : AuditStore
empty_store = record { rows = []; drawn = 0 }

-- rows[-1].row_hash if rows else GENESIS_HASH
unfoldable pub last_row_hash : String → List AuditRow → String
last_row_hash prev [] = prev
last_row_hash prev (row ∷ rows) = last_row_hash row.row_hash rows

unfoldable pub rows_for : AuditStore → String → List AuditRow
rows_for store tenant_id = get_or tenant_id [] store.rows

unfoldable pub last_hash : AuditStore → String → String
unfolding rows_for last_row_hash
last_hash store tenant_id = last_row_hash genesis_hash (rows_for store tenant_id)

module _ (p : Platform) where
  unfoldable pub compute_row_hash : (prev_hash tenant_id kind : String) → Payload → String
  compute_row_hash prev_hash tenant_id kind payload =
      p.sha256 (append prev_hash (p.dumps tenant_id kind payload))

  -- `InMemoryAuditStore.append`
  unfoldable pub append_row : String → String → Payload → AuditStore → AuditRow × AuditStore
  unfolding last_hash
  append_row tenant_id kind payload store =
      let prev_hash = last_hash store tenant_id in
      let row : AuditRow = record {
        row_id = p.uuid4 store.drawn;
        tenant_id = tenant_id;
        kind = kind;
        payload = payload;
        prev_hash = prev_hash;
        row_hash = compute_row_hash prev_hash tenant_id kind payload;
      } in
      (
        row,
        record {
          rows = insert tenant_id (rows_for store tenant_id ++ row ∷ []) store.rows;
          drawn = suc store.drawn;
        },
      )

  -- recomputed != row.row_hash or row.prev_hash != expected_prev
  unfoldable pub row_differs : String → AuditRow → Bool
  row_differs expected_prev row =
      not (compute_row_hash expected_prev row.tenant_id row.kind row.payload == row.row_hash)
      || not (row.prev_hash == expected_prev)

  -- The loop of `verify_chain` from the hash expected next.
  unfoldable pub verify_rows : String → List AuditRow → Result TamperDetected (Unit {0})
  unfolding row_differs
  verify_rows expected_prev [] = ok tt
  verify_rows expected_prev (row ∷ rows) =
      let rest = verify_rows row.row_hash rows in
      if row_differs expected_prev row
      then err (record { tenant_id = row.tenant_id; row_id = row.row_id })
      else rest

  unfoldable pub verify_chain : AuditStore → String → Result TamperDetected (Unit {0})
  unfolding verify_rows rows_for
  verify_chain store tenant_id = verify_rows genesis_hash (rows_for store tenant_id)

  unfoldable pub content_hash : String → String
  content_hash content = p.sha256 content

  unfoldable pub role_text : Role → String
  role_text Role.system = "system"
  role_text Role.user = "user"
  role_text Role.assistant = "assistant"
  role_text Role.tool = "tool"

  -- The kind of an outbound row: `None` and "" count as no violation.
  unfoldable pub outbound_kind : Option String → String
  outbound_kind none = "response"
  outbound_kind (some v) = if v == "" then "response" else "refusal"

  unfoldable pub violation_value : Option String → Value
  violation_value none = opaque "null"
  violation_value (some v) = text v

  module _ {S : Type 0} (store : Lens S AuditStore) where
    unfoldable pub record_before : TenantContext → Envelope → Exec Failure S Envelope
    unfolding append_row role_text content_hash with_message
    record_before tenant e s =
        let payload : Payload =
          ("role", text (role_text e.message.role))
          ∷ ("content_hash", text (content_hash e.message.content))
          ∷ [] in
        let (row, store') = append_row tenant.tenant_id "message" payload (store.get s) in
        (
          ok (with_message e e.message (λ m. record m { audit_row_id = some row.row_id })),
          store.put store' s,
        )

    unfoldable pub record_after : TenantContext → Envelope → Exec Failure S Envelope
    unfolding append_row outbound_kind violation_value content_hash
    record_after tenant e s =
        let violated = e.metadata.violated in
        let payload : Payload =
          ("content_hash", text (content_hash e.message.content))
          ∷ ("violation", violation_value violated)
          ∷ [] in
        let (row, store') =
          append_row tenant.tenant_id (outbound_kind violated) payload (store.get s) in
        (ok e, store.put store' s)

    unfoldable pub audit_recorder : Interceptor S
    unfolding record_before record_after
    audit_recorder = record {
      name = "audit_recorder";
      before = record_before;
      after = record_after;
    }
