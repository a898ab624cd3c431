-- ===== src/Core/Types.antt =====
-- saap/core/types.py: the value objects shared by every layer. A UUID is its canonical text, so
-- `str(uuid)` is the value itself. `created_at` of a message is left out: nothing reads it.
use ai_voice.Prelude.{Bool, String, Option, List, elem, string_eq}
use ai_voice.Prelude.Dict.{Dict}

pub data Locale : Type 0 where
  en_in en_us ta_in hi_in mr_in gu_in : Locale

-- `sensitive_personal` is the value "spii".
pub data DataClass : Type 0 where
  public internal personal sensitive_personal : DataClass

pub record TenantContext : Type 0 where
  pub tenant_id : String
  pub vertical : String
  pub locale : Locale
  pub data_residency : String
  pub consent_scope : List String
  pub trace_id : String

unfoldable pub has_consent : TenantContext → String → Bool
has_consent tenant purpose = elem purpose tenant.consent_scope

pub data Role : Type 0 where
  system user assistant tool : Role

pub record Message : Type 0 where
  pub role : Role
  pub content : String
  pub name : Option String
  pub data_class : DataClass
  pub metadata : Dict String String

pub data RiskTier : Type 0 where
  read write high_risk : RiskTier

-- A leaf of `arguments: dict[str, Any]`: a string, or any other value by its JSON text.
pub data Value : Type 0 where
  text opaque : String → Value

pub record ToolCall : Type 0 where
  pub call_id : String
  pub tool_name : String
  pub arguments : Dict String Value
  pub risk_tier : RiskTier

pub record ToolResult : Type 0 where
  pub call_id : String
  pub succeeded : Bool
  pub content : Option Value
  pub error : Option String
