-- ===== src/Core/TokenPattern.antt =====
-- The pattern `<[A-Z_]+_[0-9a-f]{8}>` of saap/compliance/pii.py and saap/core/i18n.py, `findall`
-- with it, and `str.replace`. No character of `[0-9a-f]` is one of `[A-Z_]`, so a match takes the
-- whole run of `[A-Z_]`, whose last character is the underscore, and there is nothing to retry.
pub mod Replace
pub mod Spans
use Prim.Native.Char.{Char, code}
use Prim.Native.String.{[], ◌∷◌}
use ai_voice.Prelude.{
  ℕ, zero, suc, Bool, false, ◌&&◌, ◌||◌, String, Option, none, some, List, leb, nat_beq,
  if◌then◌else◌,
}
use ai_voice.Prelude.Text.{append, count}

is_upper_or_underscore : Char → Bool
is_upper_or_underscore c = (leb b'A' (code c) && leb (code c) b'Z') || nat_beq (code c) b'_'

is_hex : Char → Bool
is_hex c = (leb b'0' (code c) && leb (code c) b'9') || (leb b'a' (code c) && leb (code c) b'f')

-- The longest run of `[A-Z_]`, and the rest.
take_run : String → String × String
unfolding is_upper_or_underscore
take_run [] = ([], [])
take_run (c ∷ s) =
    let (run, rest) = take_run s in
    if is_upper_or_underscore c then (c ∷ run, rest) else ([], c ∷ s)

-- Two characters at least, the last of them an underscore.
ends_run : String → Bool
ends_run [] = false
ends_run (c ∷ []) = false
ends_run (c ∷ (d ∷ [])) = nat_beq (code d) b'_'
ends_run (c ∷ (d ∷ s)) = ends_run (d ∷ s)

-- The hexadecimal digits asked for and the closing bracket.
take_hex : ℕ → String → Option (String × String)
unfolding is_hex
take_hex zero [] = none
take_hex zero (c ∷ s) = if nat_beq (code c) b'>' then some (c ∷ [], s) else none
take_hex (suc n) [] = none
take_hex (suc n) (c ∷ s) =
    let more = take_hex n s in
    if is_hex c then elim more [ none ↦ none | some (h, rest) ↦ some (c ∷ h, rest) ] else none

-- A match at the start of the text, and the text behind it.
unfoldable pub match_span : String → Option (String × String)
unfolding take_run ends_run take_hex append
match_span [] = none
match_span (c ∷ s) =
    let (run, rest) = take_run s in
    if nat_beq (code c) b'<' && ends_run run
    then elim (take_hex 8 rest) [ none ↦ none | some (h, behind) ↦ some (c ∷ append run h, behind) ]
    else none

find_spans : ℕ → String → List String
unfolding match_span
find_spans zero s = List.[]
find_spans (suc fuel) [] = List.[]
find_spans (suc fuel) (c ∷ s) = elim (match_span (c ∷ s)) [
  | none ↦ find_spans fuel s
  | some (span, behind) ↦ List.◌∷◌ span (find_spans fuel behind)
]

-- pattern.findall(text): each round takes a character at least, so the fuel is enough.
unfoldable pub findall : String → List String
unfolding find_spans count
findall s = find_spans (suc (count s)) s

-- The text behind a prefix.
unfoldable pub strip_prefix : String → String → Option String
strip_prefix [] s = some s
strip_prefix (c ∷ old) [] = none
strip_prefix (c ∷ old) (d ∷ s) =
    let rest = strip_prefix old s in if nat_beq (code c) (code d) then rest else none

unfoldable pub replace_from : ℕ → String → String → String → String
unfolding strip_prefix append
replace_from zero old new s = s
replace_from (suc fuel) old new [] = []
replace_from (suc fuel) old new (c ∷ s) = elim (strip_prefix old (c ∷ s)) [
  | none ↦ c ∷ replace_from fuel old new s
  | some behind ↦ append new (replace_from fuel old new behind)
]

-- s.replace(old, new) for an `old` that is not empty
unfoldable pub replace : String → String → String → String
unfolding replace_from count
replace old new s = replace_from (suc (count s)) old new s
