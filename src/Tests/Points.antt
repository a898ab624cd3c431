-- ===== src/Tests/Points.antt =====
-- A vector database that is a list does what a client is taken to do.
use ai_voice.Prelude.{
  ℕ, ◌≡◌, refl, true, not, List, [], ◌∷◌, ◌++◌, All, keep, map, Bool-cases, inl, inr,
}
use ai_voice.Qdrant.{Point, ScoredPoint, Conditions, Client}
use ai_voice.Qdrant.Isolation.{matches, IsFaithful}

abbrev scored : Point ℕ → ScoredPoint ℕ ℕ
scored p = record { point = p; score = 0 }

abbrev one_list : Client (List (Point ℕ)) ℕ ℕ
one_list = record {
  collection_exists = λ name w. true;
  create_collection = λ name size w. w;
  upsert_points = λ name points w. w ++ points;
  search_points = λ name v conditions k w. map scored (keep (matches conditions) w);
  count_points = λ name conditions w. 0;
  delete_points = λ name conditions w. keep (λ p. not (matches conditions p)) w;
}

found_match :
    (conditions : Conditions) (w : List (Point ℕ))
    → All
        (λ (f : ScoredPoint ℕ ℕ). matches conditions f.point ≡ true)
        (map scored (keep (matches conditions) w))
found_match conditions [] = tt
found_match conditions (p ∷ w) = elim (Bool-cases (matches conditions p)) [
  | inl m ↦ rw (m) (m, found_match conditions w)
  | inr m ↦ rw (m) (found_match conditions w)
]

one_list-IsFaithful : IsFaithful one_list (λ collection w. w)
one_list-IsFaithful = record {
  search_matches = λ collection v conditions k w. found_match conditions w;
  delete_removes = λ collection conditions w. refl;
  create_keeps = λ collection created size w missing. refl;
}
