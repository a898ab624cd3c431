-- ===== src/Compliance/Policy/Rego.antt =====
-- policies/saap_actions.rego, and the agreement of the two guards of saap/compliance/policy.py.
use ai_voice.Prelude.{
  ℕ, Bool, true, false, ◌&&◌, ◌||◌, ◌≡◌, String, none, some, List, elem, string_eq, leb, ltb, arith,
}
use ai_voice.Prelude.Dict.{Dict, lookup}
use ai_voice.Prelude.Exec.{Result, ok}
use ai_voice.Core.Types.{TenantContext, ToolCall, RiskTier}
use ai_voice.Compliance.Chain.{Failure}
use ai_voice.Compliance.Policy.{evaluate, OpaResult, OpaInput, opa_evaluate}

-- A tenant's data document, such as policies/tenant/dental_clinic.rego.
pub record TenantData : Type 0 where
  pub business_hours_start : ℕ
  pub business_hours_end : ℕ
  pub allowed_write_tools : List String

abbrev pub is_high_risk : RiskTier → Bool
is_high_risk RiskTier.high_risk = true
is_high_risk _ = false

abbrev pub is_read : RiskTier → Bool
is_read RiskTier.read = true
is_read _ = false

abbrev pub is_write : RiskTier → Bool
is_write RiskTier.write = true
is_write _ = false

module _ (documents : Dict String TenantData) (hour_of : String → ℕ) where
  -- The second rule for `allow`; without a document it is undefined.
  unfoldable pub write_allowed : OpaInput → Bool
  write_allowed input = elim (lookup input.tenant_id documents) [
    | none ↦ false
    | some d ↦
        elem input.tool_name d.allowed_write_tools
        && (leb d.business_hours_start (hour_of input.now)
            && ltb (hour_of input.now) d.business_hours_end)
  ]

  -- The two decisions of the package `saap.actions`.
  unfoldable pub saap_actions : OpaInput → OpaResult
  unfolding write_allowed
  saap_actions input = record {
    require_human_set = is_high_risk input.risk_tier;
    allow_set = is_read input.risk_tier || (is_write input.risk_tier && write_allowed input);
  }

  -- The sidecar that evaluates the package.
  abbrev pub rego_post : String → OpaInput → Result Failure OpaResult
  rego_post url input = ok (saap_actions input)

  -- For a tenant with a data document, the OPA guard decides every call as the in-memory guard
  -- does that has the document's hours and its list of write tools.
  pub opa_evaluate-evaluate :
      (url now : String) (tenant : TenantContext) (call : ToolCall) (d : TenantData)
      → lookup tenant.tenant_id documents ≡ some d
      → opa_evaluate rego_post url now tenant call
        ≡ ok (
            evaluate
              (record {
                business_hours_start = d.business_hours_start;
                business_hours_end = d.business_hours_end;
                allowed_write_tools = some d.allowed_write_tools;
              })
              (hour_of now)
              call)
  unfolding opa_evaluate evaluate saap_actions
  opa_evaluate-evaluate url now tenant call d h = ground arith
