-- ===== src/Compliance/Policy.antt =====
-- saap/compliance/policy.py: the decision table over proposed tool calls, and the third stage.
-- The OPA sidecar is a parameter: its reply, or the failure of the request.
pub mod Rego
use ai_voice.Prelude.{
  ℕ, Bool, false, not, ◌&&◌, String, Option, none, some, List, elem, string_eq, leb, ltb,
  if◌then◌else◌,
}
use ai_voice.Prelude.Text.{append}
use ai_voice.Prelude.Exec.{Result, ok, err, Exec, pure, ◌>>=◌}
use ai_voice.Core.Types.{TenantContext, ToolCall, RiskTier}
use ai_voice.Compliance.Chain.{
  Decision, allow, deny, require_human, Failure, violation, Envelope, with_message, Interceptor,
}

-- `InMemoryPolicyGuard.__init__`
pub record PolicyConfig : Type 0 where
  pub business_hours_start : ℕ
  pub business_hours_end : ℕ
  pub allowed_write_tools : Option (List String)

unfoldable pub default_policy : PolicyConfig
default_policy = record {
  business_hours_start = 8;
  business_hours_end = 20;
  allowed_write_tools = none;
}

-- self._allowed_write_tools is not None and call.tool_name not in self._allowed_write_tools
abbrev outside_allow_list : PolicyConfig → ToolCall → Bool
outside_allow_list cfg call = elim cfg.allowed_write_tools [
  | none ↦ false
  | some tools ↦ not (elem call.tool_name tools)
]

-- `InMemoryPolicyGuard.evaluate` at an hour of the clock; the tests on the tier are the cases.
unfoldable pub evaluate : PolicyConfig → ℕ → ToolCall → Decision
evaluate cfg hour call = elim call.risk_tier [
  | RiskTier.high_risk ↦ require_human
  | RiskTier.read ↦ allow
  | RiskTier.write ↦
      if outside_allow_list cfg call
      then deny
      else if leb cfg.business_hours_start hour && ltb hour cfg.business_hours_end
      then allow
      else deny
]

-- The truth values of the `result` object of OPA's reply; an absent key is false.
pub record OpaResult : Type 0 where
  pub require_human_set : Bool
  pub allow_set : Bool

-- The `input` object of the request.
pub record OpaInput : Type 0 where
  pub tool_name : String
  pub risk_tier : RiskTier
  pub now : String
  pub tenant_id : String

-- `OPAPolicyGuard.evaluate`; `post` answers the request or fails, and a failure goes on.
unfoldable pub opa_evaluate :
    (String → OpaInput → Result Failure OpaResult)
    → String
    → String
    → TenantContext
    → ToolCall
    → Result Failure Decision
unfolding append
opa_evaluate post opa_url now tenant call =
    let payload : OpaInput = record {
      tool_name = call.tool_name;
      risk_tier = call.risk_tier;
      now = now;
      tenant_id = tenant.tenant_id;
    } in
    elim (post (append opa_url "/v1/data/saap/actions") payload) [
      | err f ↦ err f
      | ok result ↦ ok (
          if result.require_human_set
          then require_human
          else if result.allow_set
          then allow
          else deny)
    ]

-- `PolicyGuard.evaluate`
abbrev pub Guard : Type 0 → Type 0
Guard S = TenantContext → ToolCall → Exec Failure S Decision

-- The in-memory guard as a guard that reads the hour of the clock.
unfoldable pub in_memory_guard : {S : Type 0} → PolicyConfig → (S → ℕ) → Guard S
unfolding evaluate
in_memory_guard cfg hour tenant call s = (ok (evaluate cfg (hour s) call), s)

module _ {S : Type 0} (guard : Guard S) where
  abbrev gate : Decision → ToolCall → Envelope → Exec Failure S Envelope
  gate deny call e s = (err (violation "policy_guard" (append "denied: " call.tool_name)), s)
  gate d call e s = (ok (with_message e e.message (λ m. record m { policy_decision = some d })), s)

  unfoldable pub policy_before : TenantContext → Envelope → Exec Failure S Envelope
  policy_before tenant e = elim e.metadata.tool_call [
    | none ↦ pure e
    | some call ↦ guard tenant call >>= λ d. gate d call e
  ]

  unfoldable pub policy_guard : Interceptor S
  unfolding policy_before
  policy_guard = record {
    name = "policy_guard";
    before = policy_before;
    after = λ tenant e s. (ok e, s);
  }
