-- ===== src/Gateway/Runtimes.antt =====
-- saap/gateway/langflow_runtime.py and dev_runtime.py: what the two runtimes make of Langflow's lines and
-- of a model's stream. HTTP, JSON and `str.strip` are parameters.
use ai_voice.Prelude.{
  ℕ, nat_beq, Bool, false, String, Option, none, some, List, [], ◌∷◌, ◌==◌, string_eq,
  if◌then◌else◌,
}
use ai_voice.Prelude.Dict.{Dict, get_or}
use ai_voice.Prelude.Text.{append}
use ai_voice.Prelude.Exec.{Result, ok, err}
use ai_voice.Core.Types.{Message}
use ai_voice.Core.Flow.{FlowRef, FlowRunEvent}

-- `_map_event_kind`
abbrev pub event_kinds : Dict String String
event_kinds =
    ("token", "token")
    ∷ ("add_message", "component_finished")
    ∷ ("end", "final")
    ∷ ("error", "error")
    ∷ []

unfoldable pub map_event_kind : String → String
map_event_kind langflow_event = get_or langflow_event langflow_event event_kinds

-- What a line says: the value under "event", and the text of the payload under "data" or of the
-- line's object itself.
pub record ParsedLine : Type 0 where
  pub event : Option String
  pub payload : Option String

module _ (loads : String → Option ParsedLine) (strip : String → String) where
  unfoldable pub parse_event : String → Option FlowRunEvent
  parse_event line = elim (loads line) [
    | none ↦ none
    | some data_ ↦ some record {
      kind = map_event_kind (elim data_.event [ none ↦ "message" | some e ↦ e ]);
      payload = data_.payload;
    }
  ]

  -- The loop of `run` over the lines of the response.
  unfoldable pub line_events : List String → List FlowRunEvent
  line_events [] = []
  line_events (line ∷ lines) =
      let rest = line_events lines in
      if strip line == ""
      then rest
      else elim (parse_event line) [ none ↦ rest | some event ↦ event ∷ rest ]

-- `LangflowHTTPRuntime.health`, of the status or of an HTTP error
unfoldable pub is_healthy : Result String ℕ → Bool
is_healthy (ok status_code) = nat_beq status_code 200
is_healthy (err _) = false

-- `DirectOllamaRuntime.run`, from the text so far
unfoldable pub token_events : String → List String → List FlowRunEvent
token_events full_text [] = record { kind = "final"; payload = some full_text } ∷ []
token_events full_text (chunk ∷ chunks) =
    record { kind = "token"; payload = some chunk } ∷ token_events (append full_text chunk) chunks

unfoldable pub direct_run : List String → List FlowRunEvent
direct_run chunks = token_events "" chunks

-- What `LangflowHTTPRuntime.run` posts, and where to. The base URL is the one without slashes at its end.
pub record RunPayload : Type 0 where
  pub input_value : String
  pub input_type : String
  pub output_type : String
  pub session_id : String
  pub tweaks : Dict String String

unfoldable pub run_payload : Message → String → Dict String String → RunPayload
run_payload message session_id tweaks = record {
  input_value = message.content;
  input_type = "chat";
  output_type = "chat";
  session_id = session_id;
  tweaks = tweaks;
}

unfoldable pub run_url : String → FlowRef → String
run_url base_url flow = append base_url (append "/api/v1/run/" (append flow.flow_id "?stream=true"))

-- `LangflowHTTPRuntime.upsert_flow`, of the fields of the reply and of the uploaded flow: its canonical
-- text and its name.
pub record FlowReply : Type 0 where
  pub id : Option String
  pub name : Option String
  pub updated_at : Option String

unfoldable pub upserted_flow :
    (String → String) → String → Option String → FlowReply → Result String FlowRef
upserted_flow sha256 canonical own_name data_ = elim data_.id [
  | none ↦ err "id"
  | some id ↦ ok (record {
    flow_id = id;
    name = elim data_.name [
      | some name ↦ name
      | none ↦ elim own_name [ some name ↦ name | none ↦ "unnamed" ]
    ];
    version = elim data_.updated_at [ some version ↦ version | none ↦ "0.0.0" ];
    checksum = sha256 canonical;
    lint_report_id = "";
  })
]

-- `DirectOllamaRuntime.upsert_flow`
unfoldable pub direct_upsert_flow : Result String FlowRef
direct_upsert_flow = err "DirectOllamaRuntime is a dev read-only fallback; no flow storage"
