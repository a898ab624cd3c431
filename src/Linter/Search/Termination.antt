-- ===== src/Linter/Search/Termination.antt =====
-- The loop of the linter's two searches and its fuel.
use ai_voice.Prelude.{
  ℕ, zero, suc, ◌+◌, ◌≤◌, ◌<◌, Bool, false, not, ◌||◌, ◌≡◌, ◌≢◌, refl, ap, inl, inr, String, none,
  List, [], ◌∷◌, keep, elem, ◌==◌, string_eq, pair_eq, str_eq_iff, length, length-keep-le, arith,
  Bool-cases, if◌then◌else◌,
}
use ai_voice.Linter.Graph.{successors, push_all, search}

pub elem-successors :
    (edges : List (String × String)) (n m : String)
    → elem m (successors edges n) ≡ elem (n, m) edges
unfolding successors
elem-successors [] n m = refl
elem-successors ((s, t) ∷ edges) n m =
    ground (arith, elem-successors edges n m, str_eq_iff s n, str_eq_iff n s)

pub elem-push_all :
    (ns stack : List String) (m : String) → elem m (push_all ns stack) ≡ (elem m ns || elem m stack)
unfolding push_all
elem-push_all [] stack m = refl
elem-push_all (n ∷ ns) stack m = ground (arith, elem-push_all ns (n ∷ stack) m)

pub elem-keep :
    (p : String → Bool) (ns : List String) (m : String)
    → elem m (keep p ns) ≡ (if p m then elem m ns else false)
elem-keep p [] m = ground arith
elem-keep p (n ∷ ns) m = elim (Bool-cases (m == n)) [
  | inl same ↦ ground (arith, elem-keep p ns m, ap p ((str_eq_iff m n).0 same))
  | inr differ ↦ ground (arith, elem-keep p ns m, str_eq_iff m n)
]

length-push_all : (ns stack : List String) → length (push_all ns stack) ≡ length ns + length stack
unfolding push_all
length-push_all [] stack = omega arith
length-push_all (n ∷ ns) stack = omega (arith, length-push_all ns (n ∷ stack))

-- The edges whose source has not been visited.
abbrev pub open_edges : List String → List (String × String) → ℕ
open_edges visited [] = 0
open_edges visited ((s, t) ∷ edges) =
    let rest = open_edges visited edges in if elem s visited then rest else suc rest

pub open_edges-le :
    (edges : List (String × String)) (visited : List String)
    → open_edges visited edges ≤ length edges
open_edges-le [] visited = omega arith
open_edges-le ((s, t) ∷ edges) visited = ground (arith, open_edges-le edges visited)

open_edges-visit :
    (edges : List (String × String)) (visited : List String) (n : String)
    → elem n visited ≡ false
    → length (successors edges n) + open_edges (n ∷ visited) edges ≡ open_edges visited edges
unfolding successors
open_edges-visit [] visited n h = omega arith
open_edges-visit ((s, t) ∷ edges) visited n h = elim (Bool-cases (s == n)) [
  | inl same ↦ ground (
    arith,
    open_edges-visit edges visited n h,
    ap (λ x. elem x visited) ((str_eq_iff s n).0 same),
  )
  | inr differ ↦ ground (arith, open_edges-visit edges visited n h)
]

module _ (edges : List (String × String)) (is_goal blocked : String → Bool) where
  abbrev allowed : String → List String
  allowed node = keep (λ n. not (blocked n)) (successors edges node)

  -- Each round takes a node off the stack, and what it pushes leaves by edges not open any more.
  pub search-terminates :
      (fuel : ℕ) (visited stack : List String)
      → length stack + open_edges visited edges < fuel
      → search edges is_goal blocked fuel visited stack ≢ none
  unfolding search
  search-terminates zero visited stack h = absurd (omega arith)
  search-terminates (suc fuel) visited [] h = λ e. cc
  search-terminates (suc fuel) visited (node ∷ stack) h = ground (
    arith,
    search-terminates fuel visited stack,
    search-terminates fuel (node ∷ visited) (push_all (allowed node) stack),
    length-push_all (allowed node) stack,
    length-keep-le (λ n. not (blocked n)) (successors edges node),
    open_edges-visit edges visited node,
  )
