-- ===== src/I18n.antt =====
-- saap/core/i18n.py: the translator that keeps protected spans, with the vault's token pattern. The
-- translation provider is a parameter that acts on a state and may raise.
pub mod Protected
use ai_voice.Prelude.{
  ℕ, suc, ◌+◌, Bool, true, false, not, String, List, [], ◌∷◌, keep, elem, ◌==◌, string_eq,
  if◌then◌else◌,
}
use ai_voice.Prelude.Dict.{Dict}
use ai_voice.Prelude.Text.{append, str_int, occurs}
use ai_voice.Prelude.Exec.{Exec, pure, raise, ◌>>=◌}
use ai_voice.Core.Types.{Locale}
use ai_voice.Core.TokenPattern.{findall, replace}

-- What a translation may raise: a lost span, or an error of the provider's.
pub data TranslationError (E : Type 0) : Type 0 where
  protected_span_lost : String → String → TranslationError E
  provider_failed : E → TranslationError E

-- list(dict.fromkeys(spans))
unfoldable pub distinct : List String → List String
distinct [] = []
distinct (s ∷ ss) = s ∷ keep (λ t. not (t == s)) (distinct ss)

-- f"⟦{i}⟧"
unfoldable pub sentinel : ℕ → String
unfolding append
sentinel i = append "⟦" (append (str_int i) "⟧")

-- `sentinel_of`, from the number `i` on
unfoldable pub number_spans : ℕ → List String → Dict String String
number_spans i [] = []
number_spans i (span ∷ spans) = (span, sentinel i) ∷ number_spans (suc i) spans

unfoldable pub protect : Dict String String → String → String
protect [] text = text
protect ((span, sent) ∷ more) text = protect more (replace span sent text)

module _ {E S : Type 0} where
  -- The second loop.
  unfoldable pub restore : Dict String String → String → Exec (TranslationError E) S String
  restore [] restored = pure restored
  restore ((span, sent) ∷ more) restored =
      let rest = restore more (replace sent span restored) in
      if occurs sent restored then rest else raise (protected_span_lost span sent)

  unfoldable pub translate :
      (String → Locale → Locale → Exec (TranslationError E) S String)
      → String
      → Locale
      → Locale
      → Exec (TranslationError E) S String
  translate provider text source target =
      let sentinel_of = number_spans 0 (distinct (findall text)) in
      provider (protect sentinel_of text) source target >>= λ translated.
      restore sentinel_of translated
