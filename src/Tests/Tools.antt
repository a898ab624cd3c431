-- ===== src/Tests/Tools.antt =====
-- The license gate and the evaluation harness at concrete inputs.
use ai_voice.Prelude.{ℕ, ◌≡◌, refl, true, false, String, some, none, List, [], ◌∷◌, arith, nat_eq}
use ai_voice.Prelude.Dict.{lookup}
use ai_voice.Prelude.Text.{occurs, starts_with}
use ai_voice.LicenseGate.{
  Unicode, Distribution, or_text, classify, gate, is_denied, package_verdict, load_policy,
  exit_code, scan_environment, scan_loop, sort_verdicts, place_verdict, listed, first_match,
  extract_license, name_of, denied, unclassified,
}
use ai_voice.LicenseGate.Exit.{IsFirst, gate_iff}
use ai_voice.EvalHarness.{GoldenTranscript, ActualOutcome, evaluate}
use ai_voice.EvalHarness.Meets.{no_call, next_call, evaluate-Meets}

-- Texts are in lower case already, and names are in order.
abbrev lower_case : Unicode
lower_case = record { lower = λ s. s; strip = λ s. s; quoted = λ s. s; before = λ a b. false }

abbrev installed : String → String → Distribution
installed name license = record {
  meta_name = some name;
  summary = none;
  version = some "1.0";
  license_expression = none;
  license = some license;
  classifiers = [];
}

abbrev two_packages : List Distribution
two_packages = installed "web" "MIT" ∷ installed "web" "Proprietary" ∷ []

gate_iff_example :
    is_denied (package_verdict lower_case (load_policy none) (installed "web" "MIT")) ≡ false
unfolding gate exit_code scan_environment scan_loop sort_verdicts place_verdict package_verdict
    classify listed first_match extract_license name_of or_text lookup occurs starts_with denied
    unclassified load_policy
gate_iff_example =
    ((gate_iff lower_case true none two_packages).0 refl).0 (installed "web" "MIT") IsFirst.here

abbrev booking : GoldenTranscript ℕ
booking = record {
  transcript_id = "t";
  description = "";
  user_turns = "book" ∷ [];
  expected_contains = "booked" ∷ [];
  expected_not_contains = "sorry" ∷ [];
  expected_tool_calls = record { name = "book"; arguments = some 9 } ∷ [];
  expected_grounded = none;
}

abbrev booked : ActualOutcome ℕ
booked = record { final_text = "booked at nine"; tool_calls = ("book", 9) ∷ []; grounded = none }

evaluate-Meets_example : (evaluate (λ s. s) (λ s. s) (λ n. "n") booking booked).passed ≡ true
unfolding occurs starts_with
evaluate-Meets_example = (evaluate-Meets (λ s. s) (λ s. s) (λ n. "n") booking booked).1 (
  (refl, tt),
  (refl, tt),
  next_call (refl, λ wanted h. ground arith) no_call,
  λ b h. ground arith,
)
