-- ===== src/I18n/Protected.antt =====
-- `ProtectedSpanTranslator.translate` of saap/core/i18n.py: protected spans are kept, or the call fails.
use Prim.Native.Char.{Char, code}
use Prim.Native.String.{◌∷◌}
use ai_voice.Prelude.{
  ℕ, suc, Bool, true, not, ◌≡◌, refl, subst, sym, String, List, All, keep, ◌==◌, arith, inl, inr,
  Bool-cases, string_eq,
}
use ai_voice.Prelude.Text.{append, count, str_int, occurs, lacks, lacks-append, lacks-str_int}
use ai_voice.Prelude.Exec.{Exec, ok, parts, bind-Parts}
use ai_voice.Core.Types.{Locale}
use ai_voice.Core.TokenPattern.{findall, replace}
use ai_voice.Core.TokenPattern.Replace.{occurs-replace_from, replace_from-new}
use ai_voice.Core.TokenPattern.Spans.{IsSpan, is_span, findall-IsSpan}
use ai_voice.I18n.{TranslationError, distinct, sentinel, number_spans, protect, restore, translate}

-- It starts with "⟦" and has no "<" in it.
data IsSentinel : String → Type 0 where
  is_sentinel :
      (c : Char) (t : String) → code c ≡ 10214 → lacks b'<' (c ∷ t) ≡ true → IsSentinel (c ∷ t)

sentinel-IsSentinel : (i : ℕ) → IsSentinel (sentinel i)
unfolding sentinel append lacks
sentinel-IsSentinel i =
    is_sentinel _ _ refl (lacks-append b'<' (str_int i) "⟧" (lacks-str_int i) refl)

occurs-replace :
    {span sent : String} (new s : String)
    → IsSpan span
    → IsSentinel sent
    → occurs span s ≡ true
    → occurs span (replace sent new s) ≡ true
unfolding replace
occurs-replace new s (is_span d t opens l) (is_sentinel o old first m) h =
    occurs-replace_from (suc (count s)) o d old new t s (rw (first) l) (rw (opens) m) h

replace-new :
    {sent : String} (new s : String)
    → IsSentinel sent
    → occurs sent s ≡ true
    → occurs new (replace sent new s) ≡ true
unfolding replace
replace-new new s (is_sentinel o old first m) h =
    replace_from-new (suc (count s)) o old new s (omega arith) h

module _ {E S : Type 0} where
  restore_keeps :
      (i : ℕ) (spans : List String) (t restored result : String) (s u : S)
      → IsSpan t
      → All IsSpan spans
      → occurs t restored ≡ true
      → restore {E = E} (number_spans i spans) restored s ≡ (ok result, u)
      → occurs t result ≡ true
  unfolding restore number_spans
  restore_keeps i List.[] t restored result s u good all h e = ground arith
  restore_keeps i (List.◌∷◌ span spans) t restored result s u good all h e =
      elim (Bool-cases (occurs (sentinel i) restored)) [
        | inr k ↦ absurd (ground (arith, rw (k) at e))
        | inl k ↦
            restore_keeps (suc i) spans t (replace (sentinel i) span restored) result s u good all.1
              (occurs-replace span restored good (sentinel-IsSentinel i) h) (rw (k) at e)
      ]

  restore-spans :
      (i : ℕ) (spans : List String) (restored result : String) (s u : S)
      → All IsSpan spans
      → restore {E = E} (number_spans i spans) restored s ≡ (ok result, u)
      → All (λ t. occurs t result ≡ true) spans
  unfolding restore number_spans
  restore-spans i List.[] restored result s u all e = tt
  restore-spans i (List.◌∷◌ span spans) restored result s u all e =
      elim (Bool-cases (occurs (sentinel i) restored)) [
        | inr k ↦ absurd (ground (arith, rw (k) at e))
        | inl k ↦
            let put_back = replace (sentinel i) span restored in
            (
              restore_keeps (suc i) spans span put_back result s u all.0 all.1
                  (replace-new span restored (sentinel-IsSentinel i) k) (rw (k) at e),
              restore-spans (suc i) spans put_back result s u all.1 (rw (k) at e),
            )
      ]

module _ (P : String → Type 0) where
  All-keep : (p : String → Bool) (xs : List String) → All P xs → All P (keep p xs)
  All-keep p List.[] h = tt
  All-keep p (List.◌∷◌ x xs) h = elim (Bool-cases (p x)) [
    | inl k ↦ rw (k) (h.0, All-keep p xs h.1)
    | inr k ↦ rw (k) (All-keep p xs h.1)
  ]

  All-distinct : (xs : List String) → All P xs → All P (distinct xs)
  unfolding distinct
  All-distinct List.[] h = tt
  All-distinct (List.◌∷◌ x xs) h =
      (h.0, All-keep (λ t. not (t == x)) (distinct xs) (All-distinct xs h.1))

  All-unkept :
      (x : String) (xs : List String) → P x → All P (keep (λ t. not (t == x)) xs) → All P xs
  All-unkept x List.[] h k = tt
  All-unkept x (List.◌∷◌ y ys) h k = elim (Bool-cases (y == x)) [
    | inl e ↦ (subst P (sym ((string_eq.beq_iff y x).0 e)) h, All-unkept x ys h (rw (e) at k))
    | inr e ↦
        let both : P y × All P (keep (λ t. not (t == x)) ys) = rw (e) at k in
        (both.0, All-unkept x ys h both.1)
  ]

  distinct-All : (xs : List String) → All P (distinct xs) → All P xs
  unfolding distinct
  distinct-All List.[] h = tt
  distinct-All (List.◌∷◌ x xs) h = (h.0, distinct-All xs (All-unkept x (distinct xs) h.0 h.1))

-- Whatever the provider answers: where the call returns, every protected span of the source text
-- occurs in the result; otherwise it raises.
pub translate_keeps :
    {E S : Type 0} (provider : String → Locale → Locale → Exec (TranslationError E) S String)
    (text : String) (source target : Locale) (result : String) (s u : S)
    → translate provider text source target s ≡ (ok result, u)
    → All (λ t. occurs t result ≡ true) (findall text)
unfolding translate
translate_keeps provider text source target result s u h =
    let spans = distinct (findall text) in
    elim (bind-Parts (provider (protect (number_spans 0 spans) text) source target) _ h) [
      | parts translated v asked k ↦
          distinct-All (λ t. occurs t result ≡ true) (findall text)
            (restore-spans 0 spans translated result v u
              (All-distinct IsSpan (findall text) (findall-IsSpan text)) k)
    ]
