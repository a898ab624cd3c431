-- ===== src/Linter/Search.antt =====
-- `_exists_bypassing_path` and `_can_reach_any` of the linter against paths.
mod Termination
use ai_voice.Linter.Search.Termination.{
  elem-successors, elem-push_all, elem-keep, open_edges-le, search-terminates,
}
use ai_voice.Prelude.{
  ℕ, zero, suc, ◌+◌, ◌≤◌, ◌<◌, Bool, true, false, not, ◌||◌, ◌≡◌, ◌≢◌, ◌↔◌, subst, Option-cases,
  refl, ap, ◌∙◌, inl, inr, String, none, some, List, [], ◌∷◌, keep, elem, ◌==◌, string_eq, pair_eq,
  str_eq_iff, length, length-keep-le, arith, Bool-cases, if◌then◌else◌,
}
use ai_voice.Linter.Graph.{
  FlowGraph, successors, push_all, search, found, exists_bypassing_path, can_reach_any,
}

-- There is an edge from `n` to `m`.
abbrev pub Edge : List (String × String) → String → String → Type 0
Edge edges n m = elem (n, m) edges ≡ true

-- A path along edges to a goal, on which no node behind the first is blocked.
pub data Reaches (edges : List (String × String)) (is_goal blocked : String → Bool)
    : String → Type 0 where
  arrived : (n : String) → is_goal n ≡ true → Reaches edges is_goal blocked n
  along :
      (n m : String)
      → Edge edges n m
      → blocked m ≡ false
      → Reaches edges is_goal blocked m
      → Reaches edges is_goal blocked n

module _ (edges : List (String × String)) (is_goal blocked : String → Bool) where
  abbrev allowed : String → List String
  allowed node = keep (λ n. not (blocked n)) (successors edges node)

  abbrev Reachable : String → Type 0
  Reachable = Reaches edges is_goal blocked

  abbrev Somewhere : List String → Type 0
  Somewhere stack = (n : String) × (elem n stack ≡ true) × Reachable n

  -- A node pushed by `node` that reaches a goal shows that `node` does.
  from_pushed :
      (node : String) (stack : List String)
      → Somewhere (push_all (allowed node) stack)
      → Somewhere (node ∷ stack)
  from_pushed node stack (n, there, path) = elim (Bool-cases (elem n (allowed node))) [
    | inl pushed ↦ (
      node,
      ground (arith, str_eq_iff node node),
      along node n
          (ground (
            arith,
            elem-keep (λ n. not (blocked n)) (successors edges node) n,
            elem-successors edges node n,
          ))
          (ground (arith, elem-keep (λ n. not (blocked n)) (successors edges node) n)) path,
    )
    | inr older ↦ (n, ground (arith, elem-push_all (allowed node) stack n), path)
  ]

  search_sound :
      (fuel : ℕ) (visited stack : List String)
      → search edges is_goal blocked fuel visited stack ≡ some true
      → Somewhere stack
  unfolding search
  search_sound zero visited stack h = cc
  search_sound (suc fuel) visited [] h = cc
  search_sound (suc fuel) visited (node ∷ stack) h = elim (Bool-cases (is_goal node)) [
    | inl goal ↦ (node, ground (arith, str_eq_iff node node), arrived node goal)
    | inr on ↦ elim (Bool-cases (elem node visited)) [
      | inl seen ↦
          let (n, there, path) = search_sound fuel visited stack (rw (on, seen) at h) in
          (n, ground (arith, there), path)
      | inr new ↦
          from_pushed node stack
            (search_sound fuel (node ∷ visited) (push_all (allowed node) stack) (rw (on, new) at h))
    ]
  ]

  -- No visited node is a goal, and all that a visited node leads to is visited or on the stack.
  abbrev Explored : List String → List String → Type 0
  Explored visited stack =
      (n : String)
      → elem n visited ≡ true
      → (is_goal n ≡ false)
        × ((m : String)
            → Edge edges n m
            → blocked m ≡ false
            → (elem m visited || elem m stack) ≡ true)

  closed :
      (visited : List String)
      → Explored visited []
      → (n : String) → elem n visited ≡ true
      → ¬ Reachable n
  closed visited explored n seen (arrived n' goal) = cc (explored n seen).0
  closed visited explored n seen (along n' m edge free path) =
      closed visited explored m (ground (arith, (explored n seen).1 m edge free)) path

  Explored-skip :
      (visited stack : List String) (node : String)
      → elem node visited ≡ true
      → Explored visited (node ∷ stack)
      → Explored visited stack
  Explored-skip visited stack node seen explored n v = (
    (explored n v).0,
    λ m edge free. ground (
      arith,
      (explored n v).1 m edge free,
      str_eq_iff m node,
      (λ (e : m ≡ node). ap (λ x. elem x visited) e),
    ),
  )

  Explored-go :
      (visited stack : List String) (node : String)
      → is_goal node ≡ false
      → Explored visited (node ∷ stack)
      → Explored (node ∷ visited) (push_all (allowed node) stack)
  Explored-go visited stack node on explored n v = elim (Bool-cases (n == node)) [
    | inl same ↦
        let e = (str_eq_iff n node).0 same in
        (
          ap is_goal e ∙ on,
          λ m edge free. ground (
            arith,
            elem-push_all (allowed node) stack m,
            elem-keep (λ n. not (blocked n)) (successors edges node) m,
            elem-successors edges node m,
            ap (λ x. elem (x, m) edges) e,
          ),
        )
    | inr differ ↦
        let old : elem n visited ≡ true = ground arith in
        (
          (explored n old).0,
          λ m edge free.
              ground (arith, (explored n old).1 m edge free, elem-push_all (allowed node) stack m),
        )
  ]

  search_complete :
      (fuel : ℕ) (visited stack : List String)
      → search edges is_goal blocked fuel visited stack ≡ some false
      → Explored visited stack
      → (n : String) → (elem n visited || elem n stack) ≡ true
      → ¬ Reachable n
  unfolding search
  search_complete zero visited stack h explored n there path = cc
  search_complete (suc fuel) visited [] h explored n there path =
      closed visited explored n (ground (arith, there)) path
  search_complete (suc fuel) visited (node ∷ stack) h explored n there path =
      elim (Bool-cases (is_goal node)) [
        | inl goal ↦ cc (rw goal at h)
        | inr on ↦ elim (Bool-cases (elem node visited)) [
          | inl seen ↦
              search_complete fuel visited stack (rw (on, seen) at h)
                (Explored-skip visited stack node seen explored) n
                (ground
                  (arith, there, str_eq_iff n node, (λ (e : n ≡ node). ap (λ x. elem x visited) e)))
                path
          | inr new ↦
              search_complete fuel (node ∷ visited) (push_all (allowed node) stack)
                (rw (on, new) at h) (Explored-go visited stack node on explored) n
                (ground (arith, there, elem-push_all (allowed node) stack n)) path
        ]
      ]

  abbrev enough : ℕ
  enough = suc (suc (length edges))

  -- The fuel is enough for an answer.
  search_answers :
      (start : String) → (b : Bool) × (search edges is_goal blocked enough [] (start ∷ []) ≡ some b)
  search_answers start = elim (Option-cases (search edges is_goal blocked enough [] (start ∷ []))) [
    | inl out ↦ absurd (
        search-terminates edges is_goal blocked enough [] (start ∷ [])
          (ground (arith, open_edges-le edges [])) out)
    | inr answer ↦ answer
  ]

  found-Reachable :
      (start : String)
      → found (search edges is_goal blocked enough [] (start ∷ [])) ≡ true
      → Reachable start
  found-Reachable start h =
      let (n, there, path) = search_sound enough [] (start ∷ []) (ground (arith, h)) in
      subst Reachable ((str_eq_iff n start).0 (ground (arith, there))) path

  Reachable-found :
      (start : String)
      → Reachable start
      → found (search edges is_goal blocked enough [] (start ∷ [])) ≡ true
  Reachable-found start path =
      let (b, e) = search_answers start in
      elim (Bool-cases b) [
        | inl good ↦ ground (arith, e, good)
        | inr bad ↦ absurd (
            search_complete enough [] (start ∷ []) (ground (arith, e, bad)) (λ n v. cc) start
              (ground (arith, str_eq_iff start start)) path)
      ]

-- The search for a bypass answers true exactly where a path leads from the start to the end on which
-- no node behind the start is one that must be passed through.
pub bypass_iff :
    (graph : FlowGraph) (start end : String) (must : List String)
    → (exists_bypassing_path graph start end must ≡ true)
      ↔ Reaches graph.edges (λ n. n == end) (λ n. elem n must) start
unfolding exists_bypassing_path
bypass_iff graph start end must = (
  found-Reachable graph.edges (λ n. n == end) (λ n. elem n must) start,
  Reachable-found graph.edges (λ n. n == end) (λ n. elem n must) start,
)

-- The search for a bypass ends with an answer before its fuel, two rounds more than there are edges,
-- runs out; that answer is what the function returns, and it is true exactly where a path leads
-- from the start to the end on which no node behind the start is one that must be passed through.
pub exists_bypassing_path_iff :
    (graph : FlowGraph) (start end : String) (must : List String)
    → (b : Bool) × (search graph.edges
          (λ n. n == end)
          (λ n. elem n must)
          (suc (suc (length graph.edges)))
          []
          (start ∷ [])
        ≡ some b)
      × (exists_bypassing_path graph start end must ≡ b)
      × ((b ≡ true) ↔ Reaches graph.edges (λ n. n == end) (λ n. elem n must) start)
unfolding exists_bypassing_path
exists_bypassing_path_iff graph start end must =
    let (b, e) = search_answers graph.edges (λ n. n == end) (λ n. elem n must) start in
    let same : exists_bypassing_path graph start end must ≡ b = ap found e in
    (b, e, same, rw same at (bypass_iff graph start end must))

-- The search for a target answers true exactly where some path leads to one.
pub can_reach_any_iff :
    (graph : FlowGraph) (start : String) (targets : List String)
    → (can_reach_any graph start targets ≡ true)
      ↔ Reaches graph.edges (λ n. elem n targets) (λ n. false) start
unfolding can_reach_any
can_reach_any_iff graph start targets = (
  found-Reachable graph.edges (λ n. elem n targets) (λ n. false) start,
  Reachable-found graph.edges (λ n. elem n targets) (λ n. false) start,
)
