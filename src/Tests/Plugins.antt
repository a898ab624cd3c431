-- ===== src/Tests/Plugins.antt =====
-- The entry points as pyproject.toml lists them.
use ai_voice.Prelude.{ℕ, ◌≡◌, refl, List, [], ◌∷◌, map}
use ai_voice.Prelude.Exec.{err}
use ai_voice.Registry.{PluginRegistry, RegistryError, default_allowed_licenses, load_entry_points}
use ai_voice.Registry.Plugins.{
  EntryPoint, llm_ollama, llm_vllm, memory_qdrant, memory_pgvector, voice_silero,
  voice_faster_whisper, voice_piper, billing_lago, register_entry, load_entry_points_raises,
}

abbrev shipped : List EntryPoint
shipped =
    llm_ollama ∷ llm_vllm ∷ memory_qdrant ∷ memory_pgvector ∷ voice_silero ∷ voice_faster_whisper
    ∷ voice_piper ∷ billing_lago ∷ []

-- A plugin is the number of factories that ran before its own.
abbrev counted : EntryPoint → ℕ → ℕ × ℕ
counted ep n = (n, n)

abbrev fresh : PluginRegistry ℕ ℕ
fresh = record { allowed = default_allowed_licenses; registrations = []; world = 0 }

load_entry_points_raises_example :
    (e : RegistryError) × ((load_entry_points (map (register_entry counted) shipped) fresh).0
      ≡ err e)
load_entry_points_raises_example = load_entry_points_raises counted shipped fresh refl
