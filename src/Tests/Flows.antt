-- ===== src/Tests/Flows.antt =====
-- A governed flow and its searches.
use ai_voice.Prelude.{
  ◌≡◌, ◌↔◌, refl, true, Bool, suc, length, some, String, none, [], ◌∷◌, elem, ◌==◌, string_eq,
}
use ai_voice.Linter.Graph.{
  FlowNode, FlowGraph, exists_bypassing_path, can_reach_any, nodes_of_type, predecessors, search,
  push_all, successors,
}
use ai_voice.Linter.Rules.{
  passed, lint_graph, check_unique_compliance_ingress, check_grounded_responder_before_output,
  ungrounded_llms, ids_of_types, ungrounded_outputs, check_tool_paths_end_in_audit_close,
  unclosed_tools, check_no_disallowed_components, disallowed_nodes, check_sealed_checksums,
  drifted_nodes, drifted,
}
use ai_voice.Prelude.Dict.{lookup}
use ai_voice.Linter.Search.{Reaches, exists_bypassing_path_iff}
use ai_voice.Linter.Passing.{IsGoverned, passed-IsGoverned}

abbrev node : String → String → String × FlowNode
node id node_type = (id, record { id = id; node_type = node_type; sealed_checksum = none })

abbrev governed : FlowGraph
governed = record {
  nodes =
      node "in" "ComplianceIngress"
      ∷ node "tools" "MCPToolkit"
      ∷ node "llm" "ModelRouterLLM"
      ∷ node "ground" "GroundedResponder"
      ∷ node "close" "AuditClose"
      ∷ node "out" "ChatOutput"
      ∷ [];
  edges =
      ("in", "tools")
      ∷ ("tools", "llm")
      ∷ ("llm", "ground")
      ∷ ("ground", "close")
      ∷ ("close", "out")
      ∷ [];
}

exists_bypassing_path_iff_example :
    (b : Bool) × (search governed.edges
        (λ n. n == "out")
        (λ n. elem n ("ground" ∷ []))
        (suc (suc (length governed.edges)))
        []
        ("llm" ∷ [])
      ≡ some b)
    × (exists_bypassing_path governed "llm" "out" ("ground" ∷ []) ≡ b)
    × ((b ≡ true) ↔ Reaches governed.edges (λ n. n == "out") (λ n. elem n ("ground" ∷ [])) "llm")
exists_bypassing_path_iff_example = exists_bypassing_path_iff governed "llm" "out" ("ground" ∷ [])

passed-IsGoverned_example : IsGoverned governed []
passed-IsGoverned_example = passed-IsGoverned governed [] (
    unfold lint_graph passed check_unique_compliance_ingress nodes_of_type predecessors
      check_grounded_responder_before_output ungrounded_llms ids_of_types ungrounded_outputs
      exists_bypassing_path search push_all successors check_tool_paths_end_in_audit_close
      unclosed_tools can_reach_any check_no_disallowed_components disallowed_nodes
      check_sealed_checksums drifted_nodes drifted lookup in
    refl)
