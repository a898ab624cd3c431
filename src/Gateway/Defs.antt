-- ===== src/Gateway/Defs.antt =====
-- saap/gateway/app.py (`build_compliance_chain`), and `InProcessOrchestrator.start` of
-- saap/gateway/orchestrator.py, over one state for all the objects that the gateway builds.
use ai_voice.Prelude.{ℕ, suc, String, none, List, [], ◌∷◌, ◌++◌}
use ai_voice.Prelude.Exec.{ok, Lens}
use ai_voice.Core.Types.{TenantContext, Message}
use ai_voice.Core.Flow.{FlowRef}
use ai_voice.Compliance.Chain.{Interceptor}
use ai_voice.Compliance.Platform.{Platform}
use ai_voice.Compliance.Consent.{static_has_grant, consent_gate}
use ai_voice.Compliance.Policy.{default_policy, in_memory_guard, policy_guard}
use ai_voice.Compliance.RateLimit.{Counts, default_rates, rate_limiter}
use ai_voice.Compliance.Audit.{AuditStore, audit_recorder}
use ai_voice.Compliance.Pii.{FindIter, TokenVault, simple_analyze, pii_masking}
use ai_voice.Compliance.Runtime.{StartRun}

-- A run that the orchestrator has been told to drive.
pub record StartedRun : Type 0 where
  pub run_id : String
  pub tenant : TenantContext
  pub flow : FlowRef
  pub message : Message
  pub session_id : String

pub record GatewayState : Type 0 where
  pub monotonic : ℕ
  pub hour : ℕ
  pub vault : TokenVault
  pub counts : Counts
  pub audit : AuditStore
  pub runs : List StartedRun
  pub runs_drawn : ℕ

abbrev pub vault_lens : Lens GatewayState TokenVault
vault_lens = record { get = λ s. s.vault; put = λ v s. record s { vault = v } }

abbrev pub counts_lens : Lens GatewayState Counts
counts_lens = record { get = λ s. s.counts; put = λ c s. record s { counts = c } }

abbrev pub audit_lens : Lens GatewayState AuditStore
audit_lens = record { get = λ s. s.audit; put = λ a s. record s { audit = a } }

module _ (p : Platform) (finditer : FindIter) where
  unfoldable pub build_compliance_chain : List (Interceptor GatewayState)
  build_compliance_chain =
      consent_gate static_has_grant "service"
      ∷ pii_masking p (simple_analyze finditer none) vault_lens
      ∷ policy_guard (in_memory_guard default_policy (λ s. s.hour))
      ∷ rate_limiter default_rates (λ s. s.monotonic) counts_lens
      ∷ audit_recorder p audit_lens
      ∷ []

  -- `InProcessOrchestrator.start`: the run is registered and its task created.
  unfoldable pub in_process_start : StartRun GatewayState
  in_process_start tenant flow message session_id s =
      let run_id = p.uuid4 s.runs_drawn in
      let run : StartedRun = record {
        run_id = run_id;
        tenant = tenant;
        flow = flow;
        message = message;
        session_id = session_id;
      } in
      (ok run_id, record s { runs = s.runs ++ run ∷ []; runs_drawn = suc s.runs_drawn })
