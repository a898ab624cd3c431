-- ===== src/Hitl.antt =====
-- saap/langflow_components/logic/hitl_checkpoint.py: the approval queue. An instant is a number.
pub mod Lifecycle
pub mod Expiry
use ai_voice.Prelude.{
  ℕ, ◌+◌, Bool, true, false, ◌&&◌, String, Option, none, some, List, [], ◌∷◌, ◌==◌, string_eq, keep,
  leb, if◌then◌else◌,
}
use ai_voice.Prelude.Dict.{Dict, lookup, insert, values}
use ai_voice.Prelude.Exec.{Result, ok, err, Exec, ◌>>=◌, ◌>>◌, pure, raise}
use ai_voice.Core.Types.{TenantContext, ToolCall}
use ai_voice.Core.Flow.{FlowRef, ApprovalRequest, ApprovalDecision}

pub data ApprovalStatus : Type 0 where
  pending approved denied expired : ApprovalStatus

pub data ApprovalError : Type 0 where
  approval_not_found : (request_id : String) → ApprovalError
  approval_not_pending : (request_id : String) → ApprovalStatus → ApprovalError

-- `InMemoryApprovalStore`
pub record ApprovalStore : Type 0 where
  pub requests : Dict String ApprovalRequest
  pub statuses : Dict String ApprovalStatus

abbrev pub no_requests : ApprovalStore
no_requests = record { requests = []; statuses = [] }

abbrev pub is_pending : Option ApprovalStatus → Bool
is_pending (some pending) = true
is_pending (some approved) = false
is_pending (some denied) = false
is_pending (some expired) = false
is_pending none = false

unfoldable pub create : ApprovalRequest → ApprovalStore → ApprovalStore
create request store = record {
  requests = insert request.request_id request store.requests;
  statuses = insert request.request_id pending store.statuses;
}

unfoldable pub get : String → ApprovalStore → Option ApprovalRequest
get request_id store = lookup request_id store.requests

unfoldable pub status : String → ApprovalStore → Option ApprovalStatus
status request_id store = lookup request_id store.statuses

unfoldable pub list_pending : String → ApprovalStore → List ApprovalRequest
list_pending tenant_id store =
    keep (λ r. r.tenant_id == tenant_id && is_pending (lookup r.request_id store.statuses))
      (values store.requests)

-- The status that a decision sets.
abbrev pub outcome : ApprovalDecision → ApprovalStatus
outcome decision = if decision.approved then approved else denied

unfoldable pub decide : String → ApprovalDecision → Exec ApprovalError ApprovalStore (Unit {0})
decide request_id decision store = elim (lookup request_id store.statuses) [
  | none ↦ (err (approval_not_found request_id), store)
  | some pending ↦
      (ok tt, record store { statuses = insert request_id (outcome decision) store.statuses })
  | some current ↦ (err (approval_not_pending request_id current), store)
]

-- Whether the sweep expires this request.
abbrev pub overdue : ℕ → ApprovalRequest → Option ApprovalStatus → Bool
overdue now request current = is_pending current && leb request.expires_at now

-- The loop of `expire_overdue` over the items of `_requests`.
unfoldable pub expire_loop :
    ℕ
    → Dict String ApprovalRequest
    → Dict String ApprovalStatus
    → List ApprovalRequest × Dict String ApprovalStatus
expire_loop now [] statuses = ([], statuses)
expire_loop now ((request_id, request) ∷ items) statuses =
    let hit = overdue now request (lookup request_id statuses) in
    let (found, statuses') =
      expire_loop now items (if hit then insert request_id expired statuses else statuses) in
    (if hit then request ∷ found else found, statuses')

unfoldable pub expire_overdue : ℕ → ApprovalStore → List ApprovalRequest × ApprovalStore
unfolding expire_loop
expire_overdue now store =
    let (found, statuses) = expire_loop now store.requests store.statuses in
    (found, record store { statuses = statuses })

-- `HITLCheckpointLogic.checkpoint`, given the new id and the instant
unfoldable pub checkpoint :
    (request_id : String)
    → (now ttl_seconds : ℕ) → TenantContext
    → FlowRef
    → String
    → ToolCall
    → String
    → ApprovalStore
    → ApprovalRequest × ApprovalStore
unfolding create
checkpoint request_id now ttl_seconds tenant flow session_id call rationale store =
    let request : ApprovalRequest = record {
      request_id = request_id;
      tenant_id = tenant.tenant_id;
      flow = flow;
      session_id = session_id;
      tool_call = call;
      rationale = rationale;
      expires_at = now + ttl_seconds;
    } in
    (request, create request store)

-- `HITLCheckpointLogic.resolve`
unfoldable pub resolve :
    String → ApprovalDecision → Exec ApprovalError ApprovalStore ApprovalRequest
unfolding decide get
resolve request_id decision store = elim (get request_id store) [
  | none ↦ (err (approval_not_found request_id), store)
  | some request ↦ (decide request_id decision >> pure request) store
]

-- `HITLCheckpointLogic.pending_for`
unfoldable pub pending_for : TenantContext → ApprovalStore → List ApprovalRequest
unfolding list_pending
pending_for tenant store = list_pending tenant.tenant_id store
