-- ===== src/EvalHarness.antt =====
-- tools/eval_harness/harness.py: golden transcripts, their evaluation against an outcome, the suite and
-- its report. `str.lower`, `repr`, the text of a tool's arguments and the YAML reader are parameters;
-- arguments are values that can be compared.
pub mod Meets
use ai_voice.Prelude.{
  ℕ, suc, ◌+◌, Bool, true, false, not, String, Option, none, some, List, [], ◌∷◌, ◌++◌, map, keep,
  length, nat_beq, ◌==◌, Eq, string_eq, if◌then◌else◌,
}
use ai_voice.Prelude.Text.{append, occurs, str_int}

pub record ExpectedToolCall (Args : Type 0) : Type 0 where
  pub name : String
  pub arguments : Option Args

pub record GoldenTranscript (Args : Type 0) : Type 0 where
  pub transcript_id : String
  pub description : String
  pub user_turns : List String
  pub expected_contains : List String
  pub expected_not_contains : List String
  pub expected_tool_calls : List (ExpectedToolCall Args)
  pub expected_grounded : Option Bool

-- What the YAML reader returns of a file; a turn is its role, if it has one, and its content.
pub record RawTranscript (Args : Type 0) : Type 0 where
  pub transcript_id : String
  pub description : Option String
  pub turns : List (Option String × String)
  pub contains : Option (List String)
  pub not_contains : Option (List String)
  pub tool_calls : Option (List (ExpectedToolCall Args))
  pub grounded : Option Bool

abbrev pub or_else {ℓ} : {A : Type ℓ} → A → Option A → A
or_else d none = d
or_else d (some a) = a

abbrev is_user : Option String × String → Bool
is_user (none, content) = false
is_user (some role, content) = role == "user"

unfoldable pub from_dict : {Args : Type 0} → RawTranscript Args → GoldenTranscript Args
from_dict data_ = record {
  transcript_id = data_.transcript_id;
  description = or_else "" data_.description;
  user_turns = map (λ (t : Option String × String). t.1) (keep is_user data_.turns);
  expected_contains = or_else [] data_.contains;
  expected_not_contains = or_else [] data_.not_contains;
  expected_tool_calls = or_else [] data_.tool_calls;
  expected_grounded = data_.grounded;
}

pub record AssertionFailure : Type 0 where
  pub rule : String
  pub message : String

pub record TranscriptResult : Type 0 where
  pub transcript_id : String
  pub passed : Bool
  pub failures : List AssertionFailure

pub record ActualOutcome (Args : Type 0) : Type 0 where
  pub final_text : String
  pub tool_calls : List (String × Args)
  pub grounded : Option Bool

abbrev pub failed_with : String → String → AssertionFailure
failed_with rule message = record { rule = rule; message = message }

-- str(b), and "None"
unfoldable pub show_flag : Option Bool → String
show_flag none = "None"
show_flag (some true) = "True"
show_flag (some false) = "False"

abbrev pub flag_differs : Bool → Option Bool → Bool
flag_differs b none = true
flag_differs true (some c) = not c
flag_differs false (some c) = c

module _ (lower quoted : String → String) where
  unfoldable pub check_contains : String → List String → List AssertionFailure
  check_contains final_text [] = []
  check_contains final_text (substr ∷ more) =
      let rest = check_contains final_text more in
      if occurs (lower substr) (lower final_text)
      then rest
      else failed_with "contains" (append "expected response to contain " (quoted substr)) ∷ rest

  unfoldable pub check_not_contains : String → List String → List AssertionFailure
  check_not_contains final_text [] = []
  check_not_contains final_text (substr ∷ more) =
      let rest = check_not_contains final_text more in
      if occurs (lower substr) (lower final_text)
      then failed_with "not_contains" (append "response must not contain " (quoted substr)) ∷ rest
      else rest

module _ {Args : Type 0} ⦃e : Eq Args⦄ (quoted : String → String) (show : Args → String) where
  -- Arguments that are not expected to be anything are not looked at.
  unfoldable pub check_args : String → Option Args → Args → List AssertionFailure
  check_args call none actual_args = []
  check_args call (some args) actual_args =
      if actual_args == args
      then []
      else failed_with "tool_call_args"
          (append call (append "args " (append (show args) (append ", got " (show actual_args)))))
        ∷ []

  -- A call that was expected and the one that was made; the name first, then the arguments.
  unfoldable pub check_call : ℕ → ExpectedToolCall Args → String × Args → List AssertionFailure
  check_call i expected (actual_name, actual_args) =
      let call = append "call " (append (str_int i) ": expected ") in
      if not (actual_name == expected.name)
      then failed_with "tool_call_name" (
          append call
            (append "tool " (append (quoted expected.name) (append ", got " (quoted actual_name)))))
        ∷ []
      else check_args call expected.arguments actual_args

  -- The loop over `enumerate(zip(...))`, of lists of one length.
  unfoldable pub check_calls :
      ℕ → List (ExpectedToolCall Args) → List (String × Args) → List AssertionFailure
  check_calls i [] calls = []
  check_calls i (expected ∷ more) [] = []
  check_calls i (expected ∷ more) (call ∷ calls) =
      check_call i expected call ++ check_calls (suc i) more calls

  unfoldable pub check_tool_calls :
      List (ExpectedToolCall Args) → List (String × Args) → List AssertionFailure
  check_tool_calls [] calls = []
  check_tool_calls (expected ∷ more) calls =
      if nat_beq (length calls) (length (expected ∷ more))
      then check_calls 0 (expected ∷ more) calls
      else failed_with "tool_call_count" (
          append "expected " (
            append (str_int (length (expected ∷ more)))
              (append " tool call(s), got " (str_int (length calls)))))
        ∷ []

unfoldable pub check_grounded : Option Bool → Option Bool → List AssertionFailure
check_grounded none actual = []
check_grounded (some b) actual =
    if flag_differs b actual
    then failed_with "grounded" (
        append "expected grounded="
          (append (show_flag (some b)) (append ", got " (show_flag actual))))
      ∷ []
    else []

module _ {Args : Type 0} ⦃e : Eq Args⦄ (lower quoted : String → String) (show : Args → String) where
  unfoldable pub failures_of : GoldenTranscript Args → ActualOutcome Args → List AssertionFailure
  failures_of transcript actual =
      check_contains lower quoted actual.final_text transcript.expected_contains
      ++ (check_not_contains lower quoted actual.final_text transcript.expected_not_contains
          ++ (check_tool_calls quoted show transcript.expected_tool_calls actual.tool_calls
              ++ check_grounded transcript.expected_grounded actual.grounded))

  unfoldable pub evaluate : GoldenTranscript Args → ActualOutcome Args → TranscriptResult
  evaluate transcript actual =
      let failures = failures_of transcript actual in
      record {
        transcript_id = transcript.transcript_id;
        passed = elim failures [ [] ↦ true | _ ∷ _ ↦ false ];
        failures = failures;
      }

  -- The files are given in the order of their names, as the reader returned them.
  unfoldable pub run_suite :
      (GoldenTranscript Args → ActualOutcome Args)
      → List (RawTranscript Args)
      → List TranscriptResult
  run_suite run_fn [] = []
  run_suite run_fn (raw ∷ raws) =
      evaluate (from_dict raw) (run_fn (from_dict raw)) ∷ run_suite run_fn raws

abbrev pub failed : List TranscriptResult → List TranscriptResult
failed results = keep (λ (r : TranscriptResult). not r.passed) results

unfoldable pub failure_lines : List AssertionFailure → List String
failure_lines [] = []
failure_lines (f ∷ fs) = append "  [" (append f.rule (append "] " f.message)) ∷ failure_lines fs

unfoldable pub result_lines : List TranscriptResult → List String
result_lines [] = []
result_lines (r ∷ rs) =
    append "FAIL " r.transcript_id ∷ (failure_lines r.failures ++ result_lines rs)

-- The lines of `format_report`.
unfoldable pub format_report : List TranscriptResult → List String
format_report results =
    result_lines (failed results)
    ++ elim (failed results) [
      | [] ↦ append "All " (append (str_int (length results)) " golden transcripts passed.")
      | _ ∷ _ ↦
          append (str_int (length (failed results)))
            (append "/" (append (str_int (length results)) " golden transcripts failed."))
    ]
      ∷ []
