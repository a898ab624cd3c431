-- ===== src/Ingest/PlainText.antt =====
-- `PlainTextParser` of saap/ingest/pipeline.py, of the decoded text. `str.strip` is a parameter.
use Prim.Native.Char.{Char, code}
use Prim.Native.String.{[], ◌∷◌}
use text.Mathlib.TextEquality.{Char-path}
use ai_voice.Prelude.{
  nat_beq, ◌≡◌, refl, ap, ◌∙◌, Bool, false, ◌&&◌, String, arith, inl, inr, Bool-cases, ◌==◌,
  string_eq, if◌then◌else◌,
}
use mathlib.Core.List.{List}
use ai_voice.Prelude.Text.{append, starts_with}
use ai_voice.Ingest.{ParsedBlock}

-- The first part in front of the others.
abbrev pub onto_first : Char → List String → List String
onto_first c List.[] = List.◌∷◌ (c ∷ []) List.[]
onto_first c (List.◌∷◌ p ps) = List.◌∷◌ (c ∷ p) ps

abbrev pub is_newline : Char → Bool
is_newline c = nat_beq (code c) b'\n'

-- text.split("\n\n")
unfoldable pub split_blank_lines : String → List String
split_blank_lines [] = List.◌∷◌ [] List.[]
split_blank_lines (c ∷ []) = List.◌∷◌ (c ∷ []) List.[]
split_blank_lines (c ∷ d ∷ s) =
    let behind = split_blank_lines s in
    let next = split_blank_lines (d ∷ s) in
    if is_newline c && is_newline d then List.◌∷◌ [] behind else onto_first c next

module _ (strip : String → String) where
  unfoldable pub paragraph_blocks : List String → List ParsedBlock
  paragraph_blocks List.[] = List.[]
  paragraph_blocks (List.◌∷◌ paragraph more) =
      let rest = paragraph_blocks more in
      let para = strip paragraph in
      if para == ""
      then rest
      else List.◌∷◌ (record { text = para; is_heading = starts_with "#" para; is_table = false })
          rest

  unfoldable pub parse : String → List ParsedBlock
  parse text = paragraph_blocks (split_blank_lines text)

-- "\n\n".join(parts)
abbrev pub join_blank_lines : List String → String
join_blank_lines List.[] = []
join_blank_lines (List.◌∷◌ p List.[]) = p
join_blank_lines (List.◌∷◌ p (List.◌∷◌ q ps)) =
    append p ("\n" ∷ "\n" ∷ join_blank_lines (List.◌∷◌ q ps))

join-onto_first :
    (c : Char) (ps : List String) → join_blank_lines (onto_first c ps) ≡ c ∷ join_blank_lines ps
unfolding append
join-onto_first c List.[] = refl
join-onto_first c (List.◌∷◌ p List.[]) = refl
join-onto_first c (List.◌∷◌ p (List.◌∷◌ q ps)) = refl

join-blank_onto :
    (c : Char) (ps : List String)
    → join_blank_lines (List.◌∷◌ [] (onto_first c ps))
      ≡ "\n" ∷ "\n" ∷ join_blank_lines (onto_first c ps)
unfolding append
join-blank_onto c List.[] = refl
join-blank_onto c (List.◌∷◌ p ps) = refl

join-blank :
    (s : String)
    → join_blank_lines (List.◌∷◌ [] (split_blank_lines s))
      ≡ "\n" ∷ "\n" ∷ join_blank_lines (split_blank_lines s)
unfolding split_blank_lines append
join-blank [] = refl
join-blank (c ∷ []) = refl
join-blank (c ∷ d ∷ s) = elim (Bool-cases (is_newline c && is_newline d)) [
  | inl k ↦ rw (k) refl
  | inr k ↦ rw (k) (join-blank_onto c (split_blank_lines (d ∷ s)))
]

-- The paragraphs, with a blank line between each two, are the text.
pub join-split_blank_lines : (text : String) → join_blank_lines (split_blank_lines text) ≡ text
unfolding split_blank_lines
join-split_blank_lines [] = refl
join-split_blank_lines (c ∷ []) = refl
join-split_blank_lines (c ∷ d ∷ s) = elim (Bool-cases (is_newline c && is_newline d)) [
  | inl k ↦ rw (k) (
      join-blank s
      ∙ ap (λ t. "\n" ∷ "\n" ∷ t) (join-split_blank_lines s)
      ∙ cc (Char-path c "\n" (ground (arith, k)), Char-path d "\n" (ground (arith, k))))
  | inr k ↦ rw (k) (
      join-onto_first c (split_blank_lines (d ∷ s))
      ∙ ap (λ t. c ∷ t) (join-split_blank_lines (d ∷ s)))
]
