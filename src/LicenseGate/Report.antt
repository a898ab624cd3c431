-- ===== src/LicenseGate/Report.antt =====
-- `format_text_report` and `to_dict` of tools/license_gate/gate.py: the lines that are printed, and the
-- fields of the JSON report.
use ai_voice.Prelude.{Bool, ℕ, String, List, [], ◌∷◌, ◌++◌, map, length, if◌then◌else◌}
use ai_voice.Prelude.Text.{append, str_int}
use ai_voice.LicenseGate.{Unicode, PackageVerdict, denied, under_review, unclassified, gate_passed}

pub record ReportFields : Type 0 where
  pub passed : Bool
  pub denied_ones : List PackageVerdict
  pub review_ones : List PackageVerdict
  pub unknown_ones : List PackageVerdict
  pub total_scanned : ℕ

unfoldable pub to_dict : List PackageVerdict → ReportFields
to_dict verdicts = record {
  passed = gate_passed verdicts;
  denied_ones = denied verdicts;
  review_ones = under_review verdicts;
  unknown_ones = unclassified verdicts;
  total_scanned = length verdicts;
}

module _ (u : Unicode) where
  -- "  - name version: 'license'"
  unfoldable pub package_line : PackageVerdict → String
  package_line v =
      append "  - "
        (append v.name (append " " (append v.version (append ": " (u.quoted v.license)))))

  unfoldable pub reasoned_line : PackageVerdict → String
  reasoned_line v = append (package_line v) (append " (" (append v.reason ")"))

  -- A heading and a line for each package, if there is one.
  unfoldable pub report_section :
      String → (PackageVerdict → String) → List PackageVerdict → List String
  report_section heading line [] = []
  report_section heading line (v ∷ vs) = heading ∷ map line (v ∷ vs)

  unfoldable pub format_text_report : Bool → List PackageVerdict → List String
  format_text_report strict verdicts =
      let label =
        if strict then "DENIED:" else "UNKNOWN (not failing build, but should be classified):" in
      let lines : List String =
        report_section "DENIED (license not permitted — P1 violation):" reasoned_line
          (denied verdicts)
        ++ (report_section "REVIEW (allowed to build, requires sign-off):" reasoned_line
              (under_review verdicts)
            ++ report_section label package_line (unclassified verdicts)) in
      elim lines [
        | [] ↦
            append "All " (append (str_int (length verdicts)) " packages passed LicenseGate.") ∷ []
        | l ∷ ls ↦ l ∷ ls
      ]
