-- ===== src/Engines/Vllm.antt =====
-- saap/plugins/llm/vllm/__init__.py: the provider over the endpoint of a vLLM server. The HTTP client, JSON and
-- `str.strip` are parameters; a call of the client raises for a status that is not a success. The base URL
-- is the one without slashes at its end.
use ai_voice.Prelude.{
  ℕ, suc, Bool, true, false, String, Option, none, some, List, [], ◌∷◌, map, ◌==◌, string_eq, not,
  if◌then◌else◌,
}
use ai_voice.Prelude.Dict.{Dict}
use ai_voice.Prelude.Exec.{Result, ok, err}
use ai_voice.Prelude.Floats.{Floats}
use ai_voice.Prelude.Text.{append, str_int, starts_with, text_drop}
use ai_voice.Core.Types.{Message, Role, ToolCall, RiskTier, Value}
use ai_voice.Engines.{
  GenerationConfig, ToolSpec, Completion, Field, EngineError, key_error, decode_error, index_error,
  Yielded, missing, null, value, attribute_error, get_valid, get_truthy, and_then, yield_first,
  latency_of, is_up,
}

-- A payload; the keys "stop", "tools" and "extra_body" are not in it where there is `none`.
pub record VllmPayload (F : Type 0) : Type 0 where
  pub model : String
  pub messages : List (Role × String)
  pub temperature : F
  pub max_tokens : ℕ
  pub stream : Bool
  pub stop : Option (List String)
  pub tools : Option (List ToolSpec)
  pub guided_json : Option String

-- The arguments are the text of a JSON object.
pub record VllmFunction : Type 0 where
  pub name : Option String
  pub arguments : Field String

pub record VllmCall : Type 0 where
  pub id : Field String
  pub function : Option VllmFunction

pub record VllmMessage : Type 0 where
  pub content : Field String
  pub tool_calls : Field (List VllmCall)

pub record VllmUsage : Type 0 where
  pub prompt_tokens : Field ℕ
  pub completion_tokens : Field ℕ

-- A choice is its message, where it has one.
pub record VllmReply : Type 0 where
  pub choices : Option (List (Option VllmMessage))
  pub usage : Field VllmUsage

-- A chunk of the stream, by its choices; each is the field "delta" with its content.
pub record VllmChunk : Type 0 where
  pub choices : Option (List (Field (Field String)))

unfoldable pub to_openai_messages : List Message → List (Role × String)
to_openai_messages messages = map (λ (m : Message). (m.role, m.content)) messages

-- A list under a key that is only set where the list is not empty.
unfoldable pub if_any : {A : Type 0} → List A → Option (List A)
if_any [] = none
if_any (x ∷ xs) = some (x ∷ xs)

-- data["choices"][0]
unfoldable pub first_choice : {A : Type 0} → Option (List A) → Result EngineError A
first_choice none = err (key_error "choices")
first_choice (some []) = err index_error
first_choice (some (choice ∷ more)) = ok choice

unfoldable pub required : {A : Type 0} → String → Option A → Result EngineError A
required key none = err (key_error key)
required key (some a) = ok a

-- `d.get(key, {})`, whose `get` is called next
unfoldable pub object_of : {A : Type 0} → A → Field A → Result EngineError A
object_of empty missing = ok empty
object_of empty null = err attribute_error
object_of empty (value a) = ok a

abbrev no_usage : VllmUsage
no_usage = record { prompt_tokens = missing; completion_tokens = missing }

module _ (loads_object : String → Option (Dict String Value)) where
  -- json.loads(arguments or "{}")
  unfoldable pub load_arguments : Field String → Result EngineError (Dict String Value)
  load_arguments arguments =
      let given = get_truthy "" arguments in
      elim (loads_object (if given == "" then "{}" else given)) [
        | none ↦ err decode_error
        | some d ↦ ok d
      ]

  -- The items of a call are taken in their order; `ToolCall` validates at the end.
  unfoldable pub vllm_call : ℕ → VllmCall → Result EngineError ToolCall
  vllm_call i tc = and_then (required "function" tc.function) λ function.
      and_then (required "name" function.name) λ name.
        and_then (load_arguments function.arguments) λ arguments.
          and_then (get_valid (append "vllm-" (str_int i)) tc.id) λ call_id. ok (record {
            call_id = call_id;
            tool_name = name;
            arguments = arguments;
            risk_tier = RiskTier.read;
          })

  unfoldable pub vllm_calls : ℕ → List VllmCall → Result EngineError (List ToolCall)
  vllm_calls i [] = ok []
  vllm_calls i (tc ∷ tcs) =
      and_then (vllm_call i tc) λ call. and_then (vllm_calls (suc i) tcs) λ calls. ok (call ∷ calls)

module _ (loads : String → Option VllmChunk) (strip : String → String) where
  -- What a chunk that was read yields, in front of the rest.
  unfoldable pub yield_delta : VllmChunk → Yielded → Yielded
  yield_delta chunk rest =
      elim (and_then (first_choice chunk.choices) λ choice. object_of missing choice) [
        | ok content ↦ yield_first (get_truthy "" content) rest
        | err e ↦ record { texts = []; raised = some e }
      ]

  unfoldable pub data_lines : List String → Yielded
  data_lines [] = record { texts = []; raised = none }
  data_lines (line ∷ lines) =
      let rest = data_lines lines in
      let data_str = strip (text_drop 5 line) in
      let read : Yielded = elim (loads data_str) [
        | none ↦ record { texts = []; raised = some decode_error }
        | some chunk ↦ yield_delta chunk rest
      ] in
      if not (starts_with "data:" line)
      then rest
      else if data_str == "[DONE]"
      then record { texts = []; raised = none }
      else read

module _ {F : Type 0} (floats : Floats F) (base_url : String) where
  unfoldable pub payload : List Message → GenerationConfig F → List ToolSpec → Bool → VllmPayload F
  payload messages config tools stream = record {
    model = config.model;
    messages = to_openai_messages messages;
    temperature = config.temperature;
    max_tokens = config.max_tokens;
    stream = stream;
    stop = if_any config.stop;
    tools = if_any tools;
    guided_json = config.json_schema;
  }

  unfoldable pub read_completion :
      (String → Option (Dict String Value)) → F → F → VllmReply → Result EngineError (Completion F)
  read_completion loads_object start finish data_ = and_then (first_choice data_.choices) λ choice.
      and_then (required "message" choice) λ message.
        and_then (vllm_calls loads_object 0 (get_truthy [] message.tool_calls)) λ tool_calls.
          and_then (object_of no_usage data_.usage) λ usage.
            and_then (get_valid 0 usage.prompt_tokens) λ prompt_tokens.
              and_then (get_valid 0 usage.completion_tokens) λ completion_tokens. ok (record {
                text = get_truthy "" message.content;
                tool_calls = tool_calls;
                prompt_tokens = prompt_tokens;
                completion_tokens = completion_tokens;
                latency_ms = latency_of floats start finish;
              })

  unfoldable pub generate :
      (String → Option (Dict String Value))
      → (String → VllmPayload F → Result EngineError VllmReply)
      → F
      → F
      → List Message
      → GenerationConfig F
      → List ToolSpec
      → Result EngineError (Completion F)
  generate loads_object post start finish messages config tools =
      and_then (post (append base_url "/v1/chat/completions") (payload messages config tools false))
        (read_completion loads_object start finish)

  module _ (loads : String → Option VllmChunk) (strip : String → String) where
    unfoldable pub stream :
        (String → VllmPayload F → Result EngineError (List String))
        → List Message
        → GenerationConfig F
        → List ToolSpec
        → Yielded
    stream open_stream messages config tools =
        elim (open_stream (append base_url "/v1/chat/completions")
          (payload messages config tools true)) [
            | ok lines ↦ data_lines loads strip lines
            | err e ↦ record { texts = []; raised = some e }
          ]

  unfoldable pub health : (String → Result EngineError ℕ) → Bool
  health get = is_up (get (append base_url "/health"))
