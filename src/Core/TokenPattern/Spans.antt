-- ===== src/Core/TokenPattern/Spans.antt =====
-- The texts that the pattern `<[A-Z_]+_[0-9a-f]{8}>` matches, in saap/core/i18n.py.
use Prim.Native.Char.{Char, code}
use Prim.Native.String.{[], ◌∷◌}
use ai_voice.Prelude.{
  ℕ, zero, suc, ◌<◌, true, false, ◌&&◌, ◌||◌, ◌≡◌, refl, subst, String, some, All, nat_beq, arith,
  inl, inr, Option-cases, Bool-cases, leb,
}
use ai_voice.Prelude.Text.{append, count, lacks, lacks-append}
use ai_voice.Core.TokenPattern.{
  is_upper_or_underscore, is_hex, take_run, ends_run, take_hex, match_span, find_spans, findall,
}

-- It starts with "<" and has no "⟦" in it.
pub data IsSpan : String → Type 0 where
  is_span : (c : Char) (t : String) → code c ≡ b'<' → lacks 10214 (c ∷ t) ≡ true → IsSpan (c ∷ t)

below_bracket : (c : Char) → code c < 200 → nat_beq (code c) 10214 ≡ false
below_bracket c h = ground arith

is_upper_small : (c : Char) → is_upper_or_underscore c ≡ true → code c < 200
unfolding is_upper_or_underscore
is_upper_small c h = small (code c) h
  where
    small : (n : ℕ) → ((leb b'A' n && leb n b'Z') || nat_beq n b'_') ≡ true → n < 200
    small n h = ground arith

is_hex_small : (c : Char) → is_hex c ≡ true → code c < 200
unfolding is_hex
is_hex_small c h = small (code c) h
  where
    small : (n : ℕ) → ((leb b'0' n && leb n b'9') || (leb b'a' n && leb n b'f')) ≡ true → n < 200
    small n h = ground arith

lacks-cons :
    (c : Char) (s : String) → code c < 200 → lacks 10214 s ≡ true → lacks 10214 (c ∷ s) ≡ true
unfolding lacks
lacks-cons c s h l = rw (below_bracket c h) l

lacks-take_run : (s : String) → lacks 10214 (take_run s).0 ≡ true
unfolding take_run lacks
lacks-take_run [] = refl
lacks-take_run (c ∷ s) = elim (Bool-cases (is_upper_or_underscore c)) [
  | inl e ↦ rw (e, take_run) (lacks-cons c (take_run s).0 (is_upper_small c e) (lacks-take_run s))
  | inr e ↦ rw (e, take_run) refl
]

lacks-take_hex : (n : ℕ) (s h rest : String) → take_hex n s ≡ some (h, rest) → lacks 10214 h ≡ true
unfolding take_hex lacks
lacks-take_hex zero [] h rest e = absurd (ground arith)
lacks-take_hex zero (c ∷ s) h rest e = elim (Bool-cases (nat_beq (code c) b'>')) [
  | inl k ↦
      let whole : c ∷ [] ≡ h = ground (arith, rw (k) at e) in
      subst (λ x. lacks 10214 x ≡ true) whole (lacks-cons c [] (ground (arith, k)) refl)
  | inr k ↦ absurd (ground (arith, rw (k) at e))
]
lacks-take_hex (suc n) [] h rest e = absurd (ground arith)
lacks-take_hex (suc n) (c ∷ s) h rest e = elim (Bool-cases (is_hex c)) [
  | inr k ↦ absurd (ground (arith, rw (k) at e))
  | inl k ↦ elim (Option-cases (take_hex n s)) [
    | inl m ↦ absurd (ground (arith, rw (k, m) at e))
    | inr (p, m) ↦
        let whole : c ∷ p.0 ≡ h = ground (arith, rw (k, m) at e) in
        subst (λ x. lacks 10214 x ≡ true) whole
          (lacks-cons c p.0 (is_hex_small c k) (lacks-take_hex n s p.0 p.1 m))
  ]
]

match_span-IsSpan : (s span behind : String) → match_span s ≡ some (span, behind) → IsSpan span
unfolding match_span
match_span-IsSpan [] span behind h = absurd (ground arith)
match_span-IsSpan (c ∷ s) span behind h =
    elim (Bool-cases (nat_beq (code c) b'<' && ends_run (take_run s).0)) [
      | inr k ↦ absurd (ground (arith, rw (k, match_span) at h))
      | inl k ↦ elim (Option-cases (take_hex 8 (take_run s).1)) [
        | inl m ↦ absurd (ground (arith, rw (k, m, match_span) at h))
        | inr (p, m) ↦
            let run = (take_run s).0 in
            let whole : c ∷ append run p.0 ≡ span = ground (arith, rw (k, m, match_span) at h) in
            let opens : code c ≡ b'<' = ground (arith, k) in
            subst IsSpan whole (
              is_span c (append run p.0) opens (
                lacks-cons c (append run p.0) (omega (arith, opens)) (
                  lacks-append 10214 run p.0 (lacks-take_run s)
                    (lacks-take_hex 8 (take_run s).1 p.0 p.1 m))))
      ]
    ]

find_spans-IsSpan : (fuel : ℕ) (s : String) → All IsSpan (find_spans fuel s)
unfolding find_spans
find_spans-IsSpan zero s = tt
find_spans-IsSpan (suc fuel) [] = tt
find_spans-IsSpan (suc fuel) (c ∷ s) = elim (Option-cases (match_span (c ∷ s))) [
  | inl k ↦ rw (k, find_spans) (find_spans-IsSpan fuel s)
  | inr (p, k) ↦
      rw (k, find_spans) (match_span-IsSpan (c ∷ s) p.0 p.1 k, find_spans-IsSpan fuel p.1)
]

pub findall-IsSpan : (s : String) → All IsSpan (findall s)
unfolding findall
findall-IsSpan s = find_spans-IsSpan (suc (count s)) s
