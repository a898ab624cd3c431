-- ===== src/Engines.antt =====
-- saap/core/llm.py and saap/plugins/llm: the values that a model provider takes and returns, and what the two
-- providers share. A JSON document is read by its fields: a field may be missing or null.
pub mod Ollama
pub mod Vllm
pub mod Agreement
use ai_voice.Prelude.{
  ℕ, nat_beq, Bool, true, false, String, Option, List, ◌∷◌, ◌==◌, string_eq, if◌then◌else◌,
}
use ai_voice.Prelude.Exec.{Result, ok, err}
use ai_voice.Prelude.Floats.{Floats}
use ai_voice.Core.Types.{ToolCall}

pub record GenerationConfig (F : Type 0) : Type 0 where
  pub model : String
  pub temperature : F
  pub max_tokens : ℕ
  pub stop : List String
  -- the JSON text of the schema
  pub json_schema : Option String

pub record ToolSpec : Type 0 where
  pub name : String
  pub description : String
  -- the JSON text of the schema
  pub input_schema : String

pub record Completion (F : Type 0) : Type 0 where
  pub text : String
  pub tool_calls : List ToolCall
  pub prompt_tokens : ℕ
  pub completion_tokens : ℕ
  pub latency_ms : F

pub data Field (A : Type 0) : Type 0 where
  missing null : Field A
  value : A → Field A

-- Why a provider raised: an exception of the HTTP client, a key, an item or an attribute that is not there,
-- a text that is not JSON, or a value that `Completion` or `ToolCall` refuses.
pub data EngineError : Type 0 where
  http_error : String → EngineError
  key_error : String → EngineError
  index_error attribute_error : EngineError
  decode_error : EngineError
  validation_error : EngineError

-- What an iterator yielded, and the exception that ended it if one did.
pub record Yielded : Type 0 where
  pub texts : List String
  pub raised : Option EngineError

module _ {A : Type 0} where
  -- d.get(key, default), where a null is a value that validation refuses.
  unfoldable pub get_valid : A → Field A → Result EngineError A
  get_valid d missing = ok d
  get_valid d null = err validation_error
  get_valid d (value a) = ok a

  -- d.get(key) or default, of a value that is not empty
  unfoldable pub get_truthy : A → Field A → A
  get_truthy d (value a) = a
  get_truthy d _ = d

-- One field after another, up to the first that raises.
unfoldable pub and_then :
    {A B : Type 0} → Result EngineError A → (A → Result EngineError B) → Result EngineError B
and_then (ok a) f = f a
and_then (err e) f = err e

unfoldable pub yield_first : String → Yielded → Yielded
yield_first content rest =
    if content == "" then rest else record rest { texts = content ∷ rest.texts }

-- (time.perf_counter() - start) * 1000
unfoldable pub latency_of : {F : Type 0} → Floats F → F → F → F
latency_of floats start finish = floats.mul (floats.sub finish start) (floats.of_nat 1000)

-- `health`, of the status or of an HTTP error
unfoldable pub is_up : Result EngineError ℕ → Bool
is_up (ok status_code) = nat_beq status_code 200
is_up (err _) = false
