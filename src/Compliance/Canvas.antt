-- ===== src/Compliance/Canvas.antt =====
-- saap/langflow_components/logic/compliance_ingress.py and audit_close.py: the two ends of a flow on the
-- canvas, over the two phases of the chain.
use ai_voice.Prelude.{Bool, true, false, none, some, List}
use ai_voice.Prelude.Exec.{Exec}
use ai_voice.Core.Types.{TenantContext, Message}
use ai_voice.Compliance.Chain.{Failure, Envelope, Interceptor, no_metadata, run_before, run_after}

unfoldable pub is_refused : Envelope → Bool
is_refused envelope = elim envelope.metadata.violated [ none ↦ false | some _ ↦ true ]

module _ {S : Type 0} (chain : List (Interceptor S)) where
  -- The envelope of a message that enters a flow has no metadata.
  unfoldable pub process : TenantContext → Message → Exec Failure S Envelope
  process tenant raw_message =
      run_before chain tenant
        (record { tenant = tenant; message = raw_message; metadata = no_metadata })

  unfoldable pub close_audit : TenantContext → Envelope → Exec Failure S Envelope
  close_audit tenant envelope = run_after chain tenant envelope
