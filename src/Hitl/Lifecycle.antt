-- ===== src/Hitl/Lifecycle.antt =====
-- The approval store of hitl_checkpoint.py over time: how statuses change.
use ai_voice.Prelude.{ℕ, ◌≡◌, ◌≢◌, String, some, List, [], ◌∷◌, All, arith, string_eq, str_eq_iff}
use ai_voice.Prelude.Dict.{Dict, lookup, lookup-insert, lookup-insert_self}
use ai_voice.Prelude.Exec.{ok, err}
use ai_voice.Core.Flow.{ApprovalRequest, ApprovalDecision}
use ai_voice.Hitl.{
  ApprovalStatus, pending, expired, ApprovalStore, approval_not_pending, create, decide,
  expire_loop, expire_overdue, status, outcome,
}

-- A decision that is accepted sets its status, and every later decision of the request is refused
-- and changes nothing.
pub decide_once :
    (id : String) (first second : ApprovalDecision) (store : ApprovalStore)
    → status id store ≡ some pending
    → ((decide id first store).0 ≡ ok tt)
      × (status id (decide id first store).1 ≡ some (outcome first))
      × (decide id second (decide id first store).1
          ≡ (err (approval_not_pending id (outcome first)), (decide id first store).1))
unfolding decide status
decide_once id first second store h =
    ground (arith, lookup-insert_self id (outcome first) store.statuses)

-- What the flow, the console and the sweep do to a store.
pub data Operation : Type 0 where
  creating : ApprovalRequest → Operation
  deciding : (request_id : String) → ApprovalDecision → Operation
  sweeping : (now : ℕ) → Operation

abbrev pub perform : Operation → ApprovalStore → ApprovalStore
perform (creating r) s = create r s
perform (deciding id d) s = (decide id d s).1
perform (sweeping now) s = (expire_overdue now s).1

abbrev pub run : List Operation → ApprovalStore → ApprovalStore
run [] s = s
run (o ∷ os) s = run os (perform o s)

-- The operation does not create a request under this id. `create` does not look whether an id is
-- taken, and would make a decided request pending again.
abbrev pub Spares : String → Operation → Type 0
Spares id (creating r) = r.request_id ≢ id
Spares id (deciding j d) = Unit
Spares id (sweeping now) = Unit

expire_loop_final :
    (now : ℕ) (items : Dict String ApprovalRequest) (statuses : Dict String ApprovalStatus)
    (id : String) (final : ApprovalStatus)
    → final ≢ pending
    → lookup id statuses ≡ some final
    → lookup id (expire_loop now items statuses).1 ≡ some final
unfolding expire_loop
expire_loop_final now [] statuses id final h k = k
expire_loop_final now ((j, r) ∷ items) statuses id final h k =
    expire_loop_final now items _ id final h
      (ground (arith, lookup-insert j id expired statuses, str_eq_iff j id))

perform-final :
    (o : Operation) (s : ApprovalStore) (id : String) (final : ApprovalStatus)
    → final ≢ pending
    → Spares id o
    → status id s ≡ some final
    → status id (perform o s) ≡ some final
unfolding status create decide expire_overdue
perform-final (creating r) s id final h other k =
    ground
      (arith, lookup-insert r.request_id id pending s.statuses, str_eq_iff r.request_id id, other)
perform-final (deciding j d) s id final h other k =
    ground (arith, lookup-insert j id (outcome d) s.statuses, str_eq_iff j id)
perform-final (sweeping now) s id final h other k =
    expire_loop_final now s.requests s.statuses id final h k

-- Whatever is created under other ids, decided and swept afterwards, a request that has been
-- approved, denied or has expired keeps that status.
pub run-final :
    (os : List Operation) (s : ApprovalStore) (id : String) (final : ApprovalStatus)
    → final ≢ pending
    → All (Spares id) os
    → status id s ≡ some final
    → status id (run os s) ≡ some final
run-final [] s id final h spared k = k
run-final (o ∷ os) s id final h (here, spared) k =
    run-final os (perform o s) id final h spared (perform-final o s id final h here k)
