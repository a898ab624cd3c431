-- ===== src/Registry/Plugins.antt =====
-- The entry points of pyproject.toml in the group "saap.plugins", and the functions `register` of
-- saap/plugins that they name. What a factory builds is a parameter; a
-- `NotImplementedError` is known by its entry point here.
use ai_voice.Prelude.{
  ◌≡◌, refl, Bool, true, false, inl, inr, List, [], ◌∷◌, map, any, Bool-cases, arith, string_eq,
}
use ai_voice.Prelude.Exec.{Result, ok, err, Exec, raise, continue, ◌>>◌}
use ai_voice.Registry.{RegistryError, not_implemented, PluginRegistry, register, load_entry_points}

pub data EntryPoint : Type 0 where
  llm_ollama llm_vllm memory_qdrant memory_pgvector voice_silero voice_faster_whisper voice_piper
        billing_lago :
      EntryPoint

module _ {A W : Type 0} (factory : EntryPoint → W → A × W) where
  unfoldable pub register_ollama : Exec RegistryError (PluginRegistry A W) (Unit {0})
  register_ollama = register "LLMProvider" "ollama" (factory llm_ollama) "MIT"

  unfoldable pub register_vllm : Exec RegistryError (PluginRegistry A W) (Unit {0})
  register_vllm = register "LLMProvider" "vllm" (factory llm_vllm) "Apache-2.0"

  unfoldable pub register_qdrant : Exec RegistryError (PluginRegistry A W) (Unit {0})
  register_qdrant = register "VectorStore" "qdrant" (factory memory_qdrant) "Apache-2.0"

  unfoldable pub register_pgvector : Exec RegistryError (PluginRegistry A W) (Unit {0})
  register_pgvector = register "VectorStore" "pgvector" (factory memory_pgvector) "PostgreSQL"

  unfoldable pub register_silero : Exec RegistryError (PluginRegistry A W) (Unit {0})
  register_silero = register "VAD" "silero" (factory voice_silero) "MIT"

  unfoldable pub register_whisper : Exec RegistryError (PluginRegistry A W) (Unit {0})
  register_whisper = register "StreamingSTT" "faster_whisper" (factory voice_faster_whisper) "MIT"

  unfoldable pub register_piper : Exec RegistryError (PluginRegistry A W) (Unit {0})
  register_piper = raise (not_implemented "voice.piper")

  unfoldable pub register_lago : Exec RegistryError (PluginRegistry A W) (Unit {0})
  register_lago = raise (not_implemented "billing.lago")

  unfoldable pub register_entry : EntryPoint → Exec RegistryError (PluginRegistry A W) (Unit {0})
  register_entry llm_ollama = register_ollama
  register_entry llm_vllm = register_vllm
  register_entry memory_qdrant = register_qdrant
  register_entry memory_pgvector = register_pgvector
  register_entry voice_silero = register_silero
  register_entry voice_faster_whisper = register_whisper
  register_entry voice_piper = register_piper
  register_entry billing_lago = register_lago

-- The entry points whose `register` has no factory to bind.
abbrev pub is_unwired : EntryPoint → Bool
is_unwired voice_piper = true
is_unwired billing_lago = true
is_unwired _ = false

continue-err :
    {S A B : Type 0} (r : Result RegistryError A) (f : A → Exec RegistryError S B) (s : S)
    → ((a : A) → (e : RegistryError) × ((f a s).0 ≡ err e))
    → (e : RegistryError) × ((continue r f s).0 ≡ err e)
continue-err (ok a) f s h = h a
continue-err (err e) f s h = (e, refl)

unwired_raises :
    {A W : Type 0} (factory : EntryPoint → W → A × W) (ep : EntryPoint) (s : PluginRegistry A W)
    → is_unwired ep ≡ true
    → (e : RegistryError) × ((register_entry factory ep s).0 ≡ err e)
unfolding register_entry register_piper register_lago
unwired_raises factory voice_piper s h = (_, refl)
unwired_raises factory billing_lago s h = (_, refl)
unwired_raises factory llm_ollama s h = absurd (ground arith)
unwired_raises factory llm_vllm s h = absurd (ground arith)
unwired_raises factory memory_qdrant s h = absurd (ground arith)
unwired_raises factory memory_pgvector s h = absurd (ground arith)
unwired_raises factory voice_silero s h = absurd (ground arith)
unwired_raises factory voice_faster_whisper s h = absurd (ground arith)

first_raises :
    {S A B : Type 0} (m : Exec RegistryError S A) (n : Exec RegistryError S B) (s : S)
    → (e : RegistryError) × ((m s).0 ≡ err e)
    → (e : RegistryError) × (((m >> n) s).0 ≡ err e)
first_raises m n s (e, h) = (e, rw (h) refl)

-- With the entry point of Piper or that of Lago among those that are installed, in whatever order they are
-- found and whatever was registered before, loading the entry points raises.
pub load_entry_points_raises :
    {A W : Type 0} (factory : EntryPoint → W → A × W) (found : List EntryPoint)
    (s : PluginRegistry A W)
    → any is_unwired found ≡ true
    → (e : RegistryError) × ((load_entry_points (map (register_entry factory) found) s).0 ≡ err e)
unfolding load_entry_points
load_entry_points_raises factory [] s h = absurd (ground arith)
load_entry_points_raises factory (ep ∷ found) s h = elim (Bool-cases (is_unwired ep)) [
  | inl unwired ↦
      first_raises (register_entry factory ep)
        (load_entry_points (map (register_entry factory) found)) s
        (unwired_raises factory ep s unwired)
  | inr wired ↦
      continue-err (register_entry factory ep s).0
        (λ _. load_entry_points (map (register_entry factory) found))
        (register_entry factory ep s).1
        (λ _.
          load_entry_points_raises factory found (register_entry factory ep s).1 (rw (wired) at h))
]
