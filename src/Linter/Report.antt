-- ===== src/Linter/Report.antt =====
-- The report, its id and the command line of tools/flow_linter/linter.py. JSON, SHA-256 and argument parsing
-- are parameters or left out; what is printed is a list of lines.
use ai_voice.Prelude.{
  ℕ, Bool, String, none, some, List, [], ◌∷◌, map, ◌==◌, string_eq, if◌then◌else◌,
}
use ai_voice.Prelude.Text.{append, str_int}
use ai_voice.Linter.Rules.{LintFinding, passed}

pub record ReportFields : Type 0 where
  pub has_passed : Bool
  pub findings : List LintFinding

unfoldable pub to_dict : List LintFinding → ReportFields
to_dict report = record { has_passed = passed report; findings = report }

unfoldable pub finding_line : LintFinding → String
finding_line f = append "  [" (
    append f.rule (
      append "] " (
        append f.message (elim f.node_id [
          | none ↦ ""
          | some node_id ↦ if node_id == "" then "" else append " (node: " (append node_id ")")
        ]))))

unfoldable pub text_lines : ℕ → List LintFinding → List String
text_lines node_count report =
    let failed : List String = "Flow Linter: FAIL" ∷ map finding_line report in
    if passed report
    then append "Flow Linter: PASS (" (append (str_int node_count) " nodes checked)") ∷ []
    else failed

-- The exit code; the lines are those without `--json`.
unfoldable pub lint_main : ℕ → List LintFinding → List String × ℕ
lint_main node_count report = (text_lines node_count report, if passed report then 0 else 1)

module _ {Flow : Type 0} (sha256 : String → String) (dumps : Flow → ReportFields → String) where
  unfoldable pub compute_lint_report_id : Flow → List LintFinding → String
  compute_lint_report_id flow_json report = sha256 (dumps flow_json (to_dict report))
