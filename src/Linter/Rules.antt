-- ===== src/Linter/Rules.antt =====
-- The five rules of tools/flow_linter/linter.py and the report. A check returns the findings that
-- it appends, in their order.
use ai_voice.Prelude.{
  Bool, true, false, not, String, Option, none, some, List, [], ◌∷◌, ◌++◌, map, keep, elem, ◌==◌,
  string_eq, length, if◌then◌else◌,
}
use ai_voice.Prelude.Dict.{Dict, lookup, values}
use ai_voice.Prelude.Text.{append, str_int, repr}
use ai_voice.Linter.Graph.{
  FlowNode, RawNode, FlowGraph, from_json, predecessors, nodes_of_type, exists_bypassing_path,
  can_reach_any,
}

abbrev pub sealed_component_types : List String
sealed_component_types =
    "ComplianceIngress" ∷ "GroundedResponder" ∷ "MCPToolkit" ∷ "HITLCheckpoint" ∷ "AuditClose" ∷ []

abbrev pub disallowed_component_types : List String
disallowed_component_types =
    "HTTPRequest" ∷ "APIRequest" ∷ "PythonREPL" ∷ "PythonCodeTool" ∷ "CustomComponent" ∷ "Webhook"
    ∷ []

abbrev pub tool_bearing_component_types : List String
tool_bearing_component_types = "MCPToolkit" ∷ []

abbrev pub llm_component_types : List String
llm_component_types = "ModelRouterLLM" ∷ "Agent" ∷ "AgentComponent" ∷ []

abbrev pub output_component_types : List String
output_component_types = "ChatOutput" ∷ []

pub record LintFinding : Type 0 where
  pub rule : String
  pub message : String
  pub node_id : Option String

-- `LintReport.passed`
unfoldable pub passed : List LintFinding → Bool
passed [] = true
passed (f ∷ fs) = false

-- ",".join(ids)
unfoldable pub join_comma : List String → String
join_comma [] = ""
join_comma (x ∷ []) = x
join_comma (x ∷ y ∷ xs) = append x (append "," (join_comma (y ∷ xs)))

-- [n.id for n in graph.nodes.values() if n.type in types]
unfoldable pub ids_of_types : FlowGraph → List String → List String
ids_of_types graph types = map (λ n. n.id) (keep (λ n. elem n.node_type types) (values graph.nodes))

unfoldable pub check_unique_compliance_ingress : FlowGraph → List LintFinding
check_unique_compliance_ingress graph = elim (nodes_of_type graph "ComplianceIngress") [
  | [] ↦
      record {
        rule = "missing_compliance_ingress";
        message = "flow has no ComplianceIngress entry node";
        node_id = none;
      }
      ∷ []
  | entry ∷ [] ↦ elim (predecessors graph.edges entry.id) [
    | [] ↦ []
    | p ∷ ps ↦
        record {
          rule = "compliance_ingress_not_entry";
          message = "ComplianceIngress must be the flow's entry node (no incoming edges)";
          node_id = some entry.id;
        }
        ∷ []
  ]
  | a ∷ b ∷ rest ↦
      record {
        rule = "multiple_compliance_ingress";
        message = append "flow has " (
            append (str_int (length (a ∷ b ∷ rest)))
              " ComplianceIngress nodes; exactly one required");
        node_id = some (join_comma (map (λ (n : FlowNode). n.id) (a ∷ b ∷ rest)));
      }
      ∷ []
]

-- The inner loop, over the outputs.
unfoldable pub ungrounded_outputs :
    FlowGraph → List String → String → List String → List LintFinding
ungrounded_outputs graph grounded_ids llm_id [] = []
ungrounded_outputs graph grounded_ids llm_id (output_id ∷ outputs) =
    let rest = ungrounded_outputs graph grounded_ids llm_id outputs in
    if exists_bypassing_path graph llm_id output_id grounded_ids
    then record {
      rule = "ungrounded_output_path";
      message = append "path from " (
          append llm_id (
            append " to "
              (append output_id " reaches Chat Output without passing through GroundedResponder")));
      node_id = some llm_id;
    }
      ∷ rest
    else rest

unfoldable pub ungrounded_llms :
    FlowGraph → List String → List String → List String → List LintFinding
ungrounded_llms graph grounded_ids outputs [] = []
ungrounded_llms graph grounded_ids outputs (llm_id ∷ llms) =
    ungrounded_outputs graph grounded_ids llm_id outputs
    ++ ungrounded_llms graph grounded_ids outputs llms

unfoldable pub check_grounded_responder_before_output : FlowGraph → List LintFinding
check_grounded_responder_before_output graph =
    ungrounded_llms graph (ids_of_types graph ("GroundedResponder" ∷ []))
      (ids_of_types graph output_component_types) (ids_of_types graph llm_component_types)

-- not audit_close_ids or not _can_reach_any(graph, tool_id, audit_close_ids)
abbrev pub misses_audit_close : FlowGraph → List String → String → Bool
misses_audit_close graph [] tool_id = true
misses_audit_close graph (a ∷ as_) tool_id = not (can_reach_any graph tool_id (a ∷ as_))

unfoldable pub unclosed_tools : FlowGraph → List String → List String → List LintFinding
unclosed_tools graph audit_close_ids [] = []
unclosed_tools graph audit_close_ids (tool_id ∷ tools) =
    let rest = unclosed_tools graph audit_close_ids tools in
    if misses_audit_close graph audit_close_ids tool_id
    then record {
      rule = "tool_path_missing_audit_close";
      message =
          append "no path from tool-bearing component " (append tool_id " to any AuditClose node");
      node_id = some tool_id;
    }
      ∷ rest
    else rest

unfoldable pub check_tool_paths_end_in_audit_close : FlowGraph → List LintFinding
check_tool_paths_end_in_audit_close graph =
    unclosed_tools graph (ids_of_types graph ("AuditClose" ∷ []))
      (ids_of_types graph tool_bearing_component_types)

unfoldable pub disallowed_nodes : List FlowNode → List LintFinding
disallowed_nodes [] = []
disallowed_nodes (n ∷ ns) =
    let rest = disallowed_nodes ns in
    if elem n.node_type disallowed_component_types
    then record {
      rule = "disallowed_component";
      message =
          append "raw " (append n.node_type " components are not allowed in tenant-facing flows");
      node_id = some n.id;
    }
      ∷ rest
    else rest

unfoldable pub check_no_disallowed_components : FlowGraph → List LintFinding
check_no_disallowed_components graph = disallowed_nodes (values graph.nodes)

abbrev pub is_text : Option String → String → Bool
is_text none t = false
is_text (some s) t = s == t

abbrev shown : Option String → String
shown none = "None"
shown (some s) = repr s

-- Whether a node's checksum is not the one pinned for its type; without a pin there is nothing to
-- compare.
unfoldable pub drifted : Dict String String → FlowNode → Bool
drifted pinned n =
    if elem n.node_type sealed_component_types
    then (elim (lookup n.node_type pinned) [
      | none ↦ false
      | some expected ↦ not (is_text n.sealed_checksum expected)
    ])
    else false

unfoldable pub drifted_nodes : Dict String String → List FlowNode → List LintFinding
drifted_nodes pinned [] = []
drifted_nodes pinned (n ∷ ns) =
    let rest = drifted_nodes pinned ns in
    if drifted pinned n
    then record {
      rule = "sealed_checksum_mismatch";
      message = append n.node_type (
          append " node " (
            append n.id (
              append " checksum " (
                append (shown n.sealed_checksum)
                  (append " does not match pinned " (shown (lookup n.node_type pinned)))))));
      node_id = some n.id;
    }
      ∷ rest
    else rest

unfoldable pub check_sealed_checksums : FlowGraph → Dict String String → List LintFinding
check_sealed_checksums graph pinned = drifted_nodes pinned (values graph.nodes)

-- The findings of the report of `lint_flow`.
unfoldable pub lint_graph : FlowGraph → Dict String String → List LintFinding
lint_graph graph pinned =
    check_unique_compliance_ingress graph
    ++ (check_grounded_responder_before_output graph
        ++ (check_tool_paths_end_in_audit_close graph
            ++ (check_no_disallowed_components graph ++ check_sealed_checksums graph pinned)))

unfoldable pub lint_flow :
    List RawNode → List (String × String) → Dict String String → List LintFinding
lint_flow raw_nodes raw_edges pinned = lint_graph (from_json raw_nodes raw_edges) pinned
