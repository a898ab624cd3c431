-- ===== src/Linter/Passing.antt =====
-- `lint_flow` of the linter: flows without findings.
use ai_voice.Prelude.{
  true, false, ◌≡◌, refl, ap, ◌∙◌, String, List, [], ◌∷◌, ◌++◌, All, elem, ◌==◌, string_eq,
  str_eq_iff, arith, Bool-cases, inl, inr,
}
use ai_voice.Prelude.Dict.{Dict, values}
use ai_voice.Linter.Graph.{
  FlowNode, FlowGraph, predecessors, nodes_of_type, exists_bypassing_path, can_reach_any,
}
use ai_voice.Linter.Search.{Reaches, bypass_iff, can_reach_any_iff}
use ai_voice.Linter.Rules.{
  LintFinding, passed, ids_of_types, llm_component_types, output_component_types,
  tool_bearing_component_types, disallowed_component_types, check_unique_compliance_ingress,
  ungrounded_outputs, ungrounded_llms, check_grounded_responder_before_output, misses_audit_close,
  unclosed_tools, check_tool_paths_end_in_audit_close, disallowed_nodes,
  check_no_disallowed_components, drifted, drifted_nodes, check_sealed_checksums, lint_graph,
}

passed-append :
    (xs ys : List LintFinding) → passed (xs ++ ys) ≡ true → (passed xs ≡ true) × (passed ys ≡ true)
unfolding passed
passed-append [] ys h = (refl, h)
passed-append (x ∷ xs) ys h = cc

module _ (graph : FlowGraph) where
  ungrounded_outputs-passed :
      (grounded : List String) (llm out : String) (outputs : List String)
      → passed (ungrounded_outputs graph grounded llm outputs) ≡ true
      → elem out outputs ≡ true
      → exists_bypassing_path graph llm out grounded ≡ false
  unfolding ungrounded_outputs passed
  ungrounded_outputs-passed grounded llm out [] h k = cc
  ungrounded_outputs-passed grounded llm out (o ∷ outputs) h k = ground (
    arith,
    ungrounded_outputs-passed grounded llm out outputs,
    str_eq_iff out o,
    (λ (e : out ≡ o). ap (λ x. exists_bypassing_path graph llm x grounded) e),
  )

  ungrounded_llms-passed :
      (grounded outputs : List String) (llm : String) (llms : List String)
      → passed (ungrounded_llms graph grounded outputs llms) ≡ true
      → elem llm llms ≡ true
      → passed (ungrounded_outputs graph grounded llm outputs) ≡ true
  unfolding ungrounded_llms
  ungrounded_llms-passed grounded outputs llm [] h k = cc
  ungrounded_llms-passed grounded outputs llm (l ∷ llms) h k =
      let (here, rest) =
        passed-append (ungrounded_outputs graph grounded l outputs)
          (ungrounded_llms graph grounded outputs llms) h in
      elim (Bool-cases (llm == l)) [
        | inl same ↦
            ap (λ x. passed (ungrounded_outputs graph grounded x outputs))
              ((str_eq_iff llm l).0 same)
            ∙ here
        | inr differ ↦ ungrounded_llms-passed grounded outputs llm llms rest (ground arith)
      ]

  unclosed_tools-passed :
      (closes : List String) (tool : String) (tools : List String)
      → passed (unclosed_tools graph closes tools) ≡ true
      → elem tool tools ≡ true
      → misses_audit_close graph closes tool ≡ false
  unfolding unclosed_tools passed
  unclosed_tools-passed closes tool [] h k = cc
  unclosed_tools-passed closes tool (t ∷ tools) h k = ground (
    arith,
    unclosed_tools-passed closes tool tools,
    str_eq_iff tool t,
    (λ (e : tool ≡ t). ap (misses_audit_close graph closes) e),
  )

  reached_close :
      (closes : List String) (tool : String)
      → misses_audit_close graph closes tool ≡ false
      → can_reach_any graph tool closes ≡ true
  reached_close [] tool h = cc
  reached_close (c ∷ closes) tool h = ground arith

disallowed_nodes-passed :
    (ns : List FlowNode)
    → passed (disallowed_nodes ns) ≡ true
    → All (λ n. elem n.node_type disallowed_component_types ≡ false) ns
unfolding disallowed_nodes passed
disallowed_nodes-passed [] h = tt
disallowed_nodes-passed (n ∷ ns) h =
    elim (Bool-cases (elem n.node_type disallowed_component_types)) [
      | inl bad ↦ cc (rw bad at h)
      | inr good ↦ (good, disallowed_nodes-passed ns (rw good at h))
    ]

drifted_nodes-passed :
    (pinned : Dict String String) (ns : List FlowNode)
    → passed (drifted_nodes pinned ns) ≡ true
    → All (λ n. drifted pinned n ≡ false) ns
unfolding drifted_nodes passed
drifted_nodes-passed pinned [] h = tt
drifted_nodes-passed pinned (n ∷ ns) h = elim (Bool-cases (drifted pinned n)) [
  | inl bad ↦ cc (rw bad at h)
  | inr good ↦ (good, drifted_nodes-passed pinned ns (rw good at h))
]

module _ (graph : FlowGraph) (h : passed (check_unique_compliance_ingress graph) ≡ true) where
  no_predecessors :
      (entry : FlowNode) (ps : List String)
      → nodes_of_type graph "ComplianceIngress" ≡ entry ∷ []
      → predecessors graph.edges entry.id ≡ ps
      → ps ≡ []
  unfolding check_unique_compliance_ingress passed
  no_predecessors entry [] e k = refl
  no_predecessors entry (p ∷ ps) e k = ground arith

  one_ingress :
      (ns : List FlowNode)
      → nodes_of_type graph "ComplianceIngress" ≡ ns
      → (entry : FlowNode) × (nodes_of_type graph "ComplianceIngress" ≡ entry ∷ [])
        × (predecessors graph.edges entry.id ≡ [])
  unfolding check_unique_compliance_ingress passed
  one_ingress [] e = absurd (ground arith)
  one_ingress (entry ∷ []) e =
      (entry, e, no_predecessors entry (predecessors graph.edges entry.id) e refl)
  one_ingress (a ∷ b ∷ rest) e = absurd (ground arith)

-- What the five rules promise of a flow.
pub record IsGoverned (graph : FlowGraph) (pinned : Dict String String) : Type 0 where
  -- One ComplianceIngress node, with no edge into it.
  pub ingress :
      (entry : FlowNode) × (nodes_of_type graph "ComplianceIngress" ≡ entry ∷ [])
      × (predecessors graph.edges entry.id ≡ [])
  -- No path from a model to an output that avoids every GroundedResponder.
  pub grounded :
      (llm out : String)
      → elem llm (ids_of_types graph llm_component_types) ≡ true
      → elem out (ids_of_types graph output_component_types) ≡ true
      → ¬ Reaches graph.edges
          (λ n. n == out)
          (λ n. elem n (ids_of_types graph ("GroundedResponder" ∷ [])))
          llm
  -- From every tool-bearing node some path to an AuditClose node.
  pub closed :
      (tool : String)
      → elem tool (ids_of_types graph tool_bearing_component_types) ≡ true
      → Reaches graph.edges (λ n. elem n (ids_of_types graph ("AuditClose" ∷ []))) (λ n. false) tool
  pub allowed : All (λ n. elem n.node_type disallowed_component_types ≡ false) (values graph.nodes)
  pub pinned_sums : All (λ n. drifted pinned n ≡ false) (values graph.nodes)

-- A flow without findings has one ComplianceIngress node and no edge into it, no path from a model to
-- an output that avoids every GroundedResponder, from every tool-bearing node some path to an
-- AuditClose node, no disallowed component, and no sealed node whose checksum is not the pinned one.
pub passed-IsGoverned :
    (graph : FlowGraph) (pinned : Dict String String)
    → passed (lint_graph graph pinned) ≡ true
    → IsGoverned graph pinned
unfolding lint_graph check_grounded_responder_before_output check_tool_paths_end_in_audit_close
    check_no_disallowed_components check_sealed_checksums
passed-IsGoverned graph pinned h =
    let (one, h₁) = passed-append (check_unique_compliance_ingress graph) _ h in
    let (two, h₂) = passed-append (check_grounded_responder_before_output graph) _ h₁ in
    let (three, h₃) = passed-append (check_tool_paths_end_in_audit_close graph) _ h₂ in
    let (four, five) =
      passed-append (check_no_disallowed_components graph) (check_sealed_checksums graph pinned)
        h₃ in
    record {
      ingress = one_ingress graph one (nodes_of_type graph "ComplianceIngress") refl;
      grounded = λ llm out is_llm is_out path.
          let none_found =
            ungrounded_outputs-passed graph _ llm out (ids_of_types graph output_component_types)
              (ungrounded_llms-passed graph _ (ids_of_types graph output_component_types) llm
                (ids_of_types graph llm_component_types) two is_llm)
              is_out in
          let a_path = (bypass_iff graph llm out _).1 path in cc;
      closed = λ tool is_tool. (can_reach_any_iff graph tool _).0 (
          reached_close graph _ tool (
            unclosed_tools-passed graph _ tool (ids_of_types graph tool_bearing_component_types)
              three is_tool));
      allowed = disallowed_nodes-passed (values graph.nodes) four;
      pinned_sums = drifted_nodes-passed pinned (values graph.nodes) five;
    }
