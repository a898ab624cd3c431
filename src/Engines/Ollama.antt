-- ===== src/Engines/Ollama.antt =====
-- saap/plugins/llm/ollama/__init__.py: the provider over a local Ollama daemon. The HTTP client, JSON and `str.strip`
-- are parameters; a call of the client raises for a status that is not a success. The base URL is the
-- one without slashes at its end.
use ai_voice.Prelude.{
  ℕ, suc, Bool, true, false, String, Option, none, some, List, [], ◌∷◌, map, ◌==◌, string_eq,
  if◌then◌else◌,
}
use ai_voice.Prelude.Dict.{Dict}
use ai_voice.Prelude.Exec.{Result, ok, err}
use ai_voice.Prelude.Floats.{Floats}
use ai_voice.Prelude.Text.{append, str_int}
use ai_voice.Core.Types.{Message, Role, ToolCall, RiskTier, Value}
use ai_voice.Engines.{
  GenerationConfig, ToolSpec, Completion, Field, EngineError, key_error, decode_error, Yielded,
  missing, null, value, attribute_error, get_valid, get_truthy, and_then, yield_first, latency_of,
  is_up,
}

-- A payload; the keys "stop", "format" and "tools" are not in it where there is `none`.
pub record OllamaPayload (F : Type 0) : Type 0 where
  pub model : String
  pub messages : List (Role × String)
  pub stream : Bool
  pub temperature : F
  pub num_predict : ℕ
  pub stop : Option (List String)
  pub format : Option String
  pub tools : Option (List ToolSpec)

pub record OllamaFunction : Type 0 where
  pub name : Option String
  pub arguments : Field (Dict String Value)

pub record OllamaMessage : Type 0 where
  pub content : Field String
  pub tool_calls : Field (List (Option OllamaFunction))

pub record OllamaReply : Type 0 where
  pub message : Field OllamaMessage
  pub prompt_eval_count : Field ℕ
  pub eval_count : Field ℕ

-- A line of the stream: its message, and whether "done" is true.
pub record OllamaChunk : Type 0 where
  pub message : Field OllamaMessage
  pub done : Bool

unfoldable pub to_ollama_messages : List Message → List (Role × String)
to_ollama_messages messages = map (λ (m : Message). (m.role, m.content)) messages

-- A list under a key that is only set where the list is not empty.
unfoldable pub non_empty : {A : Type 0} → List A → Option (List A)
non_empty [] = none
non_empty (x ∷ xs) = some (x ∷ xs)

unfoldable pub read_call : ℕ → Option OllamaFunction → Result EngineError ToolCall
read_call i none = err (key_error "function")
read_call i (some f) = elim f.name [
  | none ↦ err (key_error "name")
  | some name ↦ and_then (get_valid [] f.arguments) λ arguments. ok (record {
    call_id = append "ollama-" (str_int i);
    tool_name = name;
    arguments = arguments;
    risk_tier = RiskTier.read;
  })
]

unfoldable pub read_calls : ℕ → List (Option OllamaFunction) → Result EngineError (List ToolCall)
read_calls i [] = ok []
read_calls i (f ∷ fs) =
    and_then (read_call i f) λ call. and_then (read_calls (suc i) fs) λ calls. ok (call ∷ calls)

abbrev no_message : OllamaMessage
no_message = record { content = missing; tool_calls = missing }

-- `data.get("message", {})`, whose `get` is called next
unfoldable pub message_of : Field OllamaMessage → Result EngineError OllamaMessage
message_of missing = ok no_message
message_of null = err attribute_error
message_of (value message) = ok message

module _ (loads : String → Option OllamaChunk) (strip : String → String) where
  unfoldable pub chunk_lines : List String → Yielded
  unfolding message_of
  chunk_lines [] = record { texts = []; raised = none }
  chunk_lines (line ∷ lines) =
      let rest = chunk_lines lines in
      let read : Yielded = elim (loads line) [
        | none ↦ record { texts = []; raised = some decode_error }
        | some chunk ↦ elim (message_of chunk.message) [
          | err e ↦ record { texts = []; raised = some e }
          | ok message ↦
              yield_first (get_truthy "" message.content)
                (if chunk.done then record { texts = []; raised = none } else rest)
        ]
      ] in
      if strip line == "" then rest else read

module _ {F : Type 0} (floats : Floats F) (base_url : String) where
  unfoldable pub generate_payload :
      List Message → GenerationConfig F → List ToolSpec → OllamaPayload F
  generate_payload messages config tools = record {
    model = config.model;
    messages = to_ollama_messages messages;
    stream = false;
    temperature = config.temperature;
    num_predict = config.max_tokens;
    stop = non_empty config.stop;
    format = config.json_schema;
    tools = non_empty tools;
  }

  unfoldable pub read_reply : F → F → OllamaReply → Result EngineError (Completion F)
  read_reply start finish data_ = and_then (message_of data_.message) λ message.
      and_then (read_calls 0 (get_truthy [] message.tool_calls)) λ tool_calls.
        and_then (get_valid "" message.content) λ text.
          and_then (get_valid 0 data_.prompt_eval_count) λ prompt_tokens.
            and_then (get_valid 0 data_.eval_count) λ completion_tokens. ok (record {
              text = text;
              tool_calls = tool_calls;
              prompt_tokens = prompt_tokens;
              completion_tokens = completion_tokens;
              latency_ms = latency_of floats start finish;
            })

  unfoldable pub generate :
      (String → OllamaPayload F → Result EngineError OllamaReply)
      → F
      → F
      → List Message
      → GenerationConfig F
      → List ToolSpec
      → Result EngineError (Completion F)
  generate post start finish messages config tools =
      and_then (post (append base_url "/api/chat") (generate_payload messages config tools))
        (read_reply start finish)

  -- `stream` sets neither "stop" nor "tools".
  unfoldable pub stream_payload :
      List Message → GenerationConfig F → List ToolSpec → OllamaPayload F
  stream_payload messages config tools = record {
    model = config.model;
    messages = to_ollama_messages messages;
    stream = true;
    temperature = config.temperature;
    num_predict = config.max_tokens;
    stop = none;
    format = config.json_schema;
    tools = none;
  }

  module _ (loads : String → Option OllamaChunk) (strip : String → String) where
    unfoldable pub stream :
        (String → OllamaPayload F → Result EngineError (List String))
        → List Message
        → GenerationConfig F
        → List ToolSpec
        → Yielded
    stream open_stream messages config tools =
        elim (open_stream (append base_url "/api/chat") (stream_payload messages config tools)) [
          | ok lines ↦ chunk_lines loads strip lines
          | err e ↦ record { texts = []; raised = some e }
        ]

  unfoldable pub health : (String → Result EngineError ℕ) → Bool
  health get = is_up (get (append base_url "/api/tags"))
