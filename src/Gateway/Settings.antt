-- ===== src/Gateway/Settings.antt =====
-- `build_runtime_and_flow` of saap/gateway/app.py over the environment, and the flow of dev_runtime.py.
use ai_voice.Prelude.{String, Option, none, some, ◌==◌, string_eq, if◌then◌else◌}
use ai_voice.Prelude.Dict.{Dict, lookup, get_or}
use ai_voice.Core.Flow.{FlowRef}

abbrev pub dev_flow_ref : FlowRef
dev_flow_ref = record {
  flow_id = "dev-direct-ollama";
  name = "dev.direct_chat";
  version = "0.0.0-dev";
  checksum = "unpinned";
  lint_report_id = "none - not a real flow, dev fallback only";
}

-- Which runtime is built, with what it is given: the key of a header, or the model of a provider.
pub data RuntimeChoice : Type 0 where
  langflow_http : (base_url : String) (api_key : Option String) → RuntimeChoice
  direct_ollama : (base_url model : String) → RuntimeChoice

-- A variable that is set and not empty
unfoldable pub set_variable : String → Dict String String → Option String
set_variable name environ = elim (lookup name environ) [
  | none ↦ none
  | some v ↦ if v == "" then none else some v
]

module _ (environ : Dict String String) where
  unfoldable pub langflow_choice : String → String → RuntimeChoice × FlowRef
  langflow_choice langflow_url langflow_flow_id = (
    langflow_http langflow_url (lookup "LANGFLOW_API_KEY" environ),
    record {
      flow_id = langflow_flow_id;
      name = get_or "LANGFLOW_FLOW_NAME" "vertical_agent_canonical" environ;
      version = get_or "LANGFLOW_FLOW_VERSION" "unknown" environ;
      checksum = get_or "LANGFLOW_FLOW_CHECKSUM" "unverified" environ;
      lint_report_id = get_or "LANGFLOW_LINT_REPORT_ID" "unknown" environ;
    },
  )

  unfoldable pub ollama_choice : RuntimeChoice × FlowRef
  ollama_choice = (
    direct_ollama (get_or "OLLAMA_URL" "http://localhost:11434" environ)
        (get_or "SAAP_FAST_MODEL" "qwen2.5:3b" environ),
    dev_flow_ref,
  )

  unfoldable pub build_runtime_and_flow : RuntimeChoice × FlowRef
  build_runtime_and_flow = elim (set_variable "LANGFLOW_URL" environ) [
    | none ↦ ollama_choice
    | some langflow_url ↦ elim (set_variable "LANGFLOW_FLOW_ID" environ) [
      | none ↦ ollama_choice
      | some langflow_flow_id ↦ langflow_choice langflow_url langflow_flow_id
    ]
  ]
