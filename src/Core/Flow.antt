-- ===== src/Core/Flow.antt =====
-- saap/core/flow.py: flow pointers, approval requests and decisions, and run events. An instant
-- is a number; `tool_call` holds the call itself.
use ai_voice.Prelude.{ℕ, Bool, String, Option}
use ai_voice.Core.Types.{ToolCall}

pub record FlowRef : Type 0 where
  pub flow_id : String
  pub name : String
  pub version : String
  pub checksum : String
  pub lint_report_id : String

-- An event; `payload` is the text under "text", or "error" for an error, if there is one.
pub record FlowRunEvent : Type 0 where
  pub kind : String
  pub payload : Option String

pub record ApprovalRequest : Type 0 where
  pub request_id : String
  pub tenant_id : String
  pub flow : FlowRef
  pub session_id : String
  pub tool_call : ToolCall
  pub rationale : String
  pub expires_at : ℕ

pub record ApprovalDecision : Type 0 where
  pub request_id : String
  pub approved : Bool
  pub approver : String
  pub reason : Option String
