-- ===== src/Gateway/Refusals.antt =====
-- What the gateway's chain leaves behind when it refuses a message.
use ai_voice.Prelude.{false, ◌≡◌, ◌≢◌, refl, ap, ◌∙◌, String, none, some, [], arith}
use ai_voice.Prelude.Text.{append, repr}
use ai_voice.Prelude.Exec.{ok, err}
use ai_voice.Core.Types.{TenantContext, Message, has_consent}
use ai_voice.Core.Flow.{FlowRef}
use ai_voice.Compliance.Chain.{
  refused, violation, refuse, refusal_message, Envelope, InnerCall, safe_refusal_text, before_loop,
  after_loop, try_inner, handle, wrap,
}
use ai_voice.Compliance.Chain.Onion.{wrap-onion, onion}
use ai_voice.Compliance.Platform.{Platform}
use ai_voice.Compliance.Consent.{consent_before, consent_gate, static_has_grant}
use ai_voice.Compliance.Policy.{policy_guard, in_memory_guard}
use ai_voice.Compliance.RateLimit.{rate_limiter}
use ai_voice.Compliance.Audit.{audit_recorder}
use ai_voice.Compliance.Pii.{FindIter, pii_masking}
use ai_voice.Compliance.Runtime.{intercepted_start, StartRun, start_inner, initial_envelope}
use ai_voice.Gateway.Defs.{GatewayState, build_compliance_chain}

-- The gate on an envelope whose purpose is not granted.
consent_denied :
    (tenant : TenantContext) (e : Envelope) (purpose : String) (s : GatewayState)
    → e.metadata.purpose ≡ some purpose
    → has_consent tenant purpose ≡ false
    → consent_before static_has_grant "service" tenant e s
      ≡ (err (violation "consent_gate" (append "no consent for purpose " (repr purpose))), s)
unfolding consent_before static_has_grant
consent_denied tenant e purpose s h k = ground (arith, h, k)

module _ (p : Platform) (finditer : FindIter) where
  wrap_denied :
      (tenant : TenantContext) (e : Envelope) (purpose : String) (inner : InnerCall GatewayState)
      (s : GatewayState)
      → e.metadata.purpose ≡ some purpose
      → has_consent tenant purpose ≡ false
      → wrap (build_compliance_chain p finditer) tenant e inner s
        ≡ (ok (refuse "consent_gate" e), s)
  unfolding build_compliance_chain consent_gate handle refusal_message
  wrap_denied tenant e purpose inner s h k =
      wrap-onion tenant inner (build_compliance_chain p finditer) e s
      ∙ rw (consent_denied tenant e purpose s h k, onion)
          (ap (λ r. (ok (refuse "consent_gate" e), r.1)) (consent_denied tenant e purpose s h k))

  -- A tenant without the purpose is refused with the generic text, no run is started, and nothing
  -- is written: no token, no count and no audit row.
  pub start_without_consent :
      (orchestrator : StartRun GatewayState) (tenant : TenantContext) (flow : FlowRef)
      (message : Message) (session_id purpose : String) (s : GatewayState)
      → has_consent tenant purpose ≡ false
      → intercepted_start orchestrator
          (build_compliance_chain p finditer)
          tenant
          flow
          message
          session_id
          purpose
          s
        ≡ (err (refused safe_refusal_text), s)
  unfolding intercepted_start refuse refusal_message
  start_without_consent orchestrator tenant flow message session_id purpose s h = rw (
      wrap_denied tenant (initial_envelope tenant message purpose) purpose
        (start_inner orchestrator flow session_id) s refl h)

  -- When any stage stops a message, the audit store is as it was before: the recorder is the last
  -- stage, so neither its `before` nor its `after` runs, and the refusal has no row.
  pub refusal_leaves_audit :
      (tenant : TenantContext) (e : Envelope) (inner : InnerCall GatewayState) (s : GatewayState)
      → (before_loop tenant (build_compliance_chain p finditer) [] e s).stopped ≢ none
      → (wrap (build_compliance_chain p finditer) tenant e inner s).1.audit ≡ s.audit
  unfolding wrap before_loop try_inner after_loop build_compliance_chain consent_gate pii_masking
      policy_guard rate_limiter audit_recorder handle in_memory_guard
  refusal_leaves_audit tenant e inner s h = ground arith
