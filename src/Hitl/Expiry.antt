-- ===== src/Hitl/Expiry.antt =====
-- The sweep: what `expire_overdue` changes, and what it is too late for.
use ai_voice.Prelude.{
  ℕ, true, ◌≡◌, refl, String, Option, none, some, List, [], ◌∷◌, All, ◌≤◌, arith, string_eq,
  str_eq_iff, if◌then◌else◌,
}
use ai_voice.Prelude.Dict.{Dict, DistinctKeys, lookup, insert, lookup-insert}
use ai_voice.Core.Flow.{ApprovalRequest, ApprovalDecision}
use ai_voice.Hitl.{
  ApprovalStatus, pending, approved, expired, ApprovalStore, decide, expire_loop, expire_overdue,
  status, get, overdue,
}
use ai_voice.Hitl.Lifecycle.{Operation, Spares, run, decide_once, run-final}

-- What the sweep makes of one status.
abbrev pub after_sweep : ℕ → Option ApprovalRequest → Option ApprovalStatus → Option ApprovalStatus
after_sweep now none current = current
after_sweep now (some r) current = if overdue now r current then some expired else current

expire_loop_status :
    (now : ℕ) (items : Dict String ApprovalRequest) (statuses : Dict String ApprovalStatus)
    (id : String)
    → DistinctKeys items
    → lookup id (expire_loop now items statuses).1
      ≡ after_sweep now (lookup id items) (lookup id statuses)
unfolding expire_loop lookup
expire_loop_status now [] statuses id h = refl
expire_loop_status now ((j, r) ∷ items) statuses id h = ground (
  arith,
  lookup-insert j id expired statuses,
  str_eq_iff j id,
  expire_loop_status now items (insert j expired statuses) id h.1,
  expire_loop_status now items statuses id h.1,
)

-- The sweep turns exactly the requests that are pending and overdue to `expired`; every other
-- status stays.
pub status-expire_overdue :
    (now : ℕ) (store : ApprovalStore) (id : String)
    → DistinctKeys store.requests
    → status id (expire_overdue now store).1 ≡ after_sweep now (get id store) (status id store)
unfolding expire_overdue status get
status-expire_overdue now store id h = expire_loop_status now store.requests store.statuses id h

-- Until the sweep has run, a request past its expiry can still be approved: the sweep alone would
-- have expired it, and after the approval no later creation under another id, decision or sweep takes
-- it back.
pub late_approval_stands :
    (now : ℕ) (id : String) (r : ApprovalRequest) (d : ApprovalDecision) (store : ApprovalStore)
    (later : List Operation)
    → DistinctKeys store.requests
    → status id store ≡ some pending
    → get id store ≡ some r
    → r.expires_at ≤ now
    → d.approved ≡ true
    → All (Spares id) later
    → (status id (expire_overdue now store).1 ≡ some expired)
      × (status id (run later (decide id d store).1) ≡ some approved)
late_approval_stands now id r d store later distinct waiting found past yes_said spared = (
  ground (arith, status-expire_overdue now store id distinct),
  run-final later (decide id d store).1 id approved (λ e. cc) spared
      (ground (arith, (decide_once id d d store waiting).1)),
)
