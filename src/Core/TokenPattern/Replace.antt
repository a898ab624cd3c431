-- ===== src/Core/TokenPattern/Replace.antt =====
-- `str.replace` and substrings.
use Prim.Native.Char.{Char, code}
use Prim.Native.String.{[], ◌∷◌}
use ai_voice.Prelude.{
  ℕ, zero, suc, ◌<◌, true, false, ◌≡◌, refl, String, none, some, arith, inl, inr, Option-cases,
}
use ai_voice.Prelude.Text.{append, count, lacks, starts_with, occurs}
use ai_voice.Core.TokenPattern.{strip_prefix, replace_from}

starts_with-append : (t s : String) → starts_with t (append t s) ≡ true
unfolding starts_with append
starts_with-append [] s = refl
starts_with-append (c ∷ t) s = ground (arith, starts_with-append t s)

starts_with-occurs : (t s : String) → starts_with t s ≡ true → occurs t s ≡ true
unfolding occurs
starts_with-occurs t [] h = h
starts_with-occurs t (c ∷ s) h = ground arith

occurs-append : (t a s : String) → occurs t s ≡ true → occurs t (append a s) ≡ true
unfolding occurs append
occurs-append t [] s h = h
occurs-append t (c ∷ a) s h = ground (arith, occurs-append t a s h)

strip_prefix-none : (t s : String) → strip_prefix t s ≡ none → starts_with t s ≡ false
unfolding strip_prefix starts_with
strip_prefix-none [] s h = absurd (ground arith)
strip_prefix-none (c ∷ t) [] h = refl
strip_prefix-none (c ∷ t) (d ∷ s) h = ground (arith, strip_prefix-none t s)

-- What begins with a character that the prefix lacks occurs behind the prefix.
occurs-strip_prefix :
    (d : Char) (t old s behind : String)
    → lacks (code d) old ≡ true
    → strip_prefix old s ≡ some behind
    → occurs (d ∷ t) s ≡ true
    → occurs (d ∷ t) behind ≡ true
unfolding strip_prefix lacks occurs starts_with
occurs-strip_prefix d t [] s behind l h k = ground arith
occurs-strip_prefix d t (o ∷ old) [] behind l h k = absurd (ground arith)
occurs-strip_prefix d t (o ∷ old) (e ∷ s) behind l h k =
    ground (arith, occurs-strip_prefix d t old s behind)

starts_with-replace_from :
    (fuel : ℕ) (o : Char) (old new t s : String)
    → lacks (code o) t ≡ true
    → starts_with t s ≡ true
    → starts_with t (replace_from fuel (o ∷ old) new s) ≡ true
unfolding starts_with replace_from lacks strip_prefix
starts_with-replace_from zero o old new t s l h = h
starts_with-replace_from (suc fuel) o old new [] s l h = refl
starts_with-replace_from (suc fuel) o old new (d ∷ t) [] l h = absurd (ground arith)
starts_with-replace_from (suc fuel) o old new (d ∷ t) (e ∷ s) l h =
    ground (arith, starts_with-replace_from fuel o old new t s)

-- A replacement leaves every text in place whose characters are not the first one of what is
-- replaced, and whose first character does not occur there.
pub occurs-replace_from :
    (fuel : ℕ) (o d : Char) (old new t s : String)
    → lacks (code o) (d ∷ t) ≡ true
    → lacks (code d) (o ∷ old) ≡ true
    → occurs (d ∷ t) s ≡ true
    → occurs (d ∷ t) (replace_from fuel (o ∷ old) new s) ≡ true
unfolding occurs replace_from
occurs-replace_from zero o d old new t s l m h = h
occurs-replace_from (suc fuel) o d old new t [] l m h = h
occurs-replace_from (suc fuel) o d old new t (e ∷ s) l m h =
    elim (Option-cases (strip_prefix (o ∷ old) (e ∷ s))) [
      | inr (behind, k) ↦
          rw (k, replace_from)
            (occurs-append (d ∷ t) new _ (
              occurs-replace_from fuel o d old new t behind l m
                (occurs-strip_prefix d t (o ∷ old) (e ∷ s) behind m k h)))
      | inl k ↦
          let kept = starts_with-replace_from (suc fuel) o old new (d ∷ t) (e ∷ s) l in
          rw (k, replace_from)
            (ground
              (arith, occurs-replace_from fuel o d old new t s l m, rw (k, replace_from) at kept))
    ]

pub replace_from-new :
    (fuel : ℕ) (o : Char) (old new s : String)
    → count s < fuel
    → occurs (o ∷ old) s ≡ true
    → occurs new (replace_from fuel (o ∷ old) new s) ≡ true
unfolding occurs replace_from count starts_with
replace_from-new zero o old new s l h = absurd (omega arith)
replace_from-new (suc fuel) o old new [] l h = absurd (ground arith)
replace_from-new (suc fuel) o old new (e ∷ s) l h =
    elim (Option-cases (strip_prefix (o ∷ old) (e ∷ s))) [
      | inr (behind, k) ↦ rw (k, replace_from) (starts_with-occurs new _ (starts_with-append new _))
      | inl k ↦
          rw (k, replace_from)
            (ground (
              arith,
              replace_from-new fuel o old new s (omega arith),
              strip_prefix-none (o ∷ old) (e ∷ s) k,
            ))
    ]
