-- ===== src/Ingest/Chunks.antt =====
-- The `while` loop of `StructureAwareChunker.chunk` in saap/ingest/pipeline.py.
use ai_voice.Prelude.{
  ℕ, zero, suc, ◌-◌, ◌≤◌, ◌<◌, ◌≡◌, refl, ap, String, some, List, [], ◌∷◌, ◌++◌, All, length, take,
  drop, leb, arith, Bool-cases, inl, inr, true, false,
}
use ai_voice.Ingest.{ChunkerConfig, drain}

take-drop : {A : Type 0} (n : ℕ) (xs : List A) → take n xs ++ drop n xs ≡ xs
take-drop zero xs = refl
take-drop (suc n) [] = refl
take-drop (suc n) (x ∷ xs) = ap (λ l. x ∷ l) (take-drop n xs)

take-take : {A : Type 0} (n m : ℕ) (xs : List A) → n ≤ m → take n (take m xs) ≡ take n xs
take-take zero m xs h = refl
take-take (suc n) zero xs h = absurd (omega arith)
take-take (suc n) (suc m) [] h = refl
take-take (suc n) (suc m) (x ∷ xs) h = ap (λ l. x ∷ l) (take-take n m xs (omega arith))

length-take : {A : Type 0} (n : ℕ) (xs : List A) → n ≤ length xs → length (take n xs) ≡ n
length-take zero xs h = refl
length-take (suc n) [] h = absurd (omega arith)
length-take (suc n) (x ∷ xs) h = ground (arith, length-take n xs)

length-drop : {A : Type 0} (n : ℕ) (xs : List A) → length (drop n xs) ≡ length xs - n
length-drop zero xs = omega arith
length-drop (suc n) [] = omega arith
length-drop (suc n) (x ∷ xs) = ground (arith, length-drop n xs)

append_assoc_list : {A : Type 0} (xs ys zs : List A) → (xs ++ ys) ++ zs ≡ xs ++ (ys ++ zs)
append_assoc_list [] ys zs = refl
append_assoc_list (x ∷ xs) ys zs = ap (λ l. x ∷ l) (append_assoc_list xs ys zs)

module _ (cfg : ChunkerConfig) where
  -- The words that each chunk has before the overlap with the next one, and the words left.
  abbrev pub uncut : List (List String) → List String → List String
  uncut [] left = left
  uncut (c ∷ cs) left = take (cfg.target_words - cfg.overlap_words) c ++ uncut cs left

  pub record Covers (words : List String) (chunks : List (List String)) (left : List String)
      : Type 0 where
    pub whole : uncut chunks left ≡ words
    pub full : All (λ (c : List String). length c ≡ cfg.target_words) chunks
    pub short : length left < cfg.target_words

  drain-long :
      (fuel : ℕ) (words : List String) (chunks : List (List String)) (left : List String)
      → leb cfg.target_words (length words) ≡ true
      → drain cfg fuel (drop (cfg.target_words - cfg.overlap_words) words) ≡ some (chunks, left)
      → drain cfg (suc fuel) words ≡ some (take cfg.target_words words ∷ chunks, left)
  unfolding drain
  drain-long fuel words chunks left h k = rw (h, k) refl

  drain-short :
      (fuel : ℕ) (words : List String)
      → leb cfg.target_words (length words) ≡ false
      → drain cfg (suc fuel) words ≡ some ([], words)
  unfolding drain
  drain-short fuel words h = rw (h) refl

  Covers-cons :
      (words : List String) (chunks : List (List String)) (left : List String)
      → cfg.target_words ≤ length words
      → Covers (drop (cfg.target_words - cfg.overlap_words) words) chunks left
      → Covers words (take cfg.target_words words ∷ chunks) left
  Covers-cons words chunks left h c =
      let step = cfg.target_words - cfg.overlap_words in
      record {
        whole =
            rw (take-take step cfg.target_words words (omega arith), c.whole)
              (take-drop step words);
        full = (length-take cfg.target_words words h, c.full);
        short = c.short;
      }

  -- Where the overlap is smaller than the target, the loop ends. Every chunk that it cuts off has
  -- exactly the target's number of words, fewer are left, and the chunks up to their overlaps and
  -- the words left make up the words there were, in their order.
  pub drain-Covers :
      (fuel : ℕ) (words : List String)
      → cfg.overlap_words < cfg.target_words
      → length words < fuel
      → (chunks : List (List String)) × (left : List String) × (drain cfg fuel words
          ≡ some (chunks, left))
        × Covers words chunks left
  drain-Covers zero words h k = absurd (omega arith)
  drain-Covers (suc fuel) words h k = elim (Bool-cases (leb cfg.target_words (length words))) [
    | inr small ↦ (
      [],
      words,
      drain-short fuel words small,
      record { whole = refl; full = tt; short = ground (arith, small) },
    )
    | inl big ↦
        let step = cfg.target_words - cfg.overlap_words in
        let (chunks, left, ended, covers) =
          drain-Covers fuel (drop step words) h (ground (arith, big, length-drop step words)) in
        (
          take cfg.target_words words ∷ chunks,
          left,
          drain-long fuel words chunks left big ended,
          Covers-cons words chunks left (ground (arith, big)) covers,
        )
  ]
