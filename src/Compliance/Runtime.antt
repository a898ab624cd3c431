-- ===== src/Compliance/Runtime.antt =====
-- saap/compliance/runtime.py: `InterceptedRuntime` over a chain and an orchestrator.
use ai_voice.Prelude.{String, none, some, List}
use ai_voice.Prelude.Exec.{Exec, pure, raise, ◌>>=◌}
use ai_voice.Core.Types.{TenantContext, Message}
use ai_voice.Core.Flow.{FlowRef, ApprovalDecision}
use ai_voice.Compliance.Chain.{
  Failure, refused, no_metadata, Envelope, with_message, Interceptor, InnerCall, wrap,
}

-- `Orchestrator.start`
abbrev pub StartRun : Type 0 → Type 0
StartRun S = TenantContext → FlowRef → Message → String → Exec Failure S String

-- The envelope of a message that arrives: its purpose is the only metadata.
abbrev pub initial_envelope : TenantContext → Message → String → Envelope
initial_envelope tenant message purpose = record {
  tenant = tenant;
  message = message;
  metadata = record no_metadata { purpose = some purpose };
}

module _ {S : Type 0} (orchestrator : StartRun S) where
  unfoldable pub start_inner : FlowRef → String → InnerCall S
  unfolding with_message
  start_inner flow session_id t e = do
    run_id ← orchestrator t flow e.message session_id
    pure (with_message e e.message (λ m. record m { run_id = some run_id }))

  unfoldable pub intercepted_start :
      List (Interceptor S)
      → TenantContext
      → FlowRef
      → Message
      → String
      → String
      → Exec Failure S String
  unfolding start_inner
  intercepted_start chain tenant flow message session_id purpose = do
    result ←
        wrap chain tenant (initial_envelope tenant message purpose) (start_inner flow session_id)
    elim result.metadata.run_id [
      | none ↦ raise (refused result.message.content)
      | some run_id ↦ pure run_id
    ]

-- The other methods of `InterceptedRuntime` hand on to the orchestrator, past the chain.
unfoldable pub intercepted_events : {Events : Type 0} → (String → Events) → String → Events
intercepted_events events run_id = events run_id

unfoldable pub intercepted_resume :
    {S : Type 0}
    → (String → ApprovalDecision → Exec Failure S Unit)
    → String
    → ApprovalDecision
    → Exec Failure S Unit
intercepted_resume resume request_id decision = resume request_id decision

unfoldable pub intercepted_cancel :
    {S : Type 0} → (String → Exec Failure S Unit) → String → Exec Failure S Unit
intercepted_cancel cancel run_id = cancel run_id
