-- ===== src/Linter/Graph.antt =====
-- `FlowGraph` of tools/flow_linter/linter.py and the two searches over it. A search keeps its
-- stack with the top in front, and takes fuel; `none` means that the fuel ran out.
use ai_voice.Prelude.{
  ℕ, zero, suc, Bool, true, false, not, String, Option, none, some, List, [], ◌∷◌, keep, elem, ◌==◌,
  string_eq, length, if◌then◌else◌,
}
use ai_voice.Prelude.Dict.{Dict, insert, values}

pub record FlowNode : Type 0 where
  pub id : String
  pub node_type : String
  pub sealed_checksum : Option String

-- A node of the exported JSON: the keys that `from_json` reads, `none` where one is absent.
pub record RawNode : Type 0 where
  pub id : String
  pub data_type : Option String
  pub outer_type : Option String
  pub sealed_checksum : Option String

pub record FlowGraph : Type 0 where
  pub nodes : Dict String FlowNode
  pub edges : List (String × String)

-- a or b, for values that are texts or absent
abbrev pub or_else : Option String → Option String → Option String
or_else none b = b
or_else (some a) b = if a == "" then b else some a

unfoldable pub node_of : RawNode → FlowNode
node_of n = record {
  id = n.id;
  node_type = elim (or_else (or_else n.data_type n.outer_type) (some "unknown")) [
    | none ↦ "unknown"
    | some t ↦ t
  ];
  sealed_checksum = n.sealed_checksum;
}

unfoldable pub add_nodes : Dict String FlowNode → List RawNode → Dict String FlowNode
add_nodes nodes [] = nodes
add_nodes nodes (n ∷ ns) = add_nodes (insert n.id (node_of n) nodes) ns

-- `FlowGraph.from_json`
unfoldable pub from_json : List RawNode → List (String × String) → FlowGraph
from_json raw_nodes raw_edges = record { nodes = add_nodes [] raw_nodes; edges = raw_edges }

unfoldable pub successors : List (String × String) → String → List String
successors [] n = []
successors ((s, t) ∷ edges) n = let rest = successors edges n in if s == n then t ∷ rest else rest

unfoldable pub predecessors : List (String × String) → String → List String
predecessors [] n = []
predecessors ((s, t) ∷ edges) n =
    let rest = predecessors edges n in if t == n then s ∷ rest else rest

unfoldable pub nodes_of_type : FlowGraph → String → List FlowNode
nodes_of_type graph type_name = keep (λ n. n.node_type == type_name) (values graph.nodes)

-- The appends of a list of nodes to the stack, one after the other.
unfoldable pub push_all : List String → List String → List String
push_all [] stack = stack
push_all (n ∷ ns) stack = push_all ns (n ∷ stack)

-- The `while stack` loop of both searches: they differ in the test for the end and in which
-- successors they leave out.
module _ (edges : List (String × String)) (is_goal blocked : String → Bool) where
  unfoldable pub search : ℕ → List String → List String → Option Bool
  search zero visited stack = none
  search (suc fuel) visited [] = some false
  search (suc fuel) visited (node ∷ stack) =
      let skip = search fuel visited stack in
      let go =
        search fuel (node ∷ visited)
          (push_all (keep (λ n. not (blocked n)) (successors edges node)) stack) in
      if is_goal node then some true else if elem node visited then skip else go

abbrev pub found : Option Bool → Bool
found none = false
found (some b) = b

-- `_exists_bypassing_path`
unfoldable pub exists_bypassing_path : FlowGraph → String → String → List String → Bool
exists_bypassing_path graph start end must_pass_through = found (
    search graph.edges (λ n. n == end) (λ n. elem n must_pass_through)
      (suc (suc (length graph.edges))) [] (start ∷ []))

-- `_can_reach_any`
unfoldable pub can_reach_any : FlowGraph → String → List String → Bool
can_reach_any graph start targets = found (
    search graph.edges (λ n. elem n targets) (λ n. false) (suc (suc (length graph.edges))) []
      (start ∷ []))
