-- ===== src/EvalHarness/Meets.antt =====
-- `evaluate` of tools/eval_harness/harness.py against what a transcript asks for.
use ai_voice.Prelude.{
  ℕ, suc, ◌≡◌, refl, ap, ◌↔◌, inl, inr, Bool-cases, texts_differ, Bool, true, false, String, Option,
  none, some, List, [], ◌∷◌, ◌++◌, All, length, nat_beq, ◌==◌, Eq, arith, string_eq,
}
use ai_voice.Prelude.Text.{append, occurs, str_int}
use ai_voice.EvalHarness.{
  ExpectedToolCall, GoldenTranscript, ActualOutcome, AssertionFailure, check_contains,
  check_not_contains, check_call, check_args, flag_differs, check_calls, check_tool_calls,
  check_grounded, failures_of, evaluate,
}

append_empty : {A : Type 0} (xs ys : List A) → (xs ++ ys ≡ []) ↔ ((xs ≡ []) × (ys ≡ []))
append_empty [] ys = (λ h. (refl, h), λ h. h.1)
append_empty (x ∷ xs) ys = ground arith

module _ {Args : Type 0} where
  abbrev pub Matches : ExpectedToolCall Args → String × Args → Type 0
  Matches expected (name, args) =
      (name ≡ expected.name) × ((wanted : Args) → expected.arguments ≡ some wanted → args ≡ wanted)

  -- The calls that were made are the expected ones, in their order.
  pub data Calls : List (ExpectedToolCall Args) → List (String × Args) → Type 0 where
    no_call : Calls [] []
    next_call :
        {x : ExpectedToolCall Args} {xs : List (ExpectedToolCall Args)} {c : String × Args}
        {cs : List (String × Args)}
        → Matches x c
        → Calls xs cs
        → Calls (x ∷ xs) (c ∷ cs)

  Calls-first :
      {x : ExpectedToolCall Args} {xs : List (ExpectedToolCall Args)} {c : String × Args}
      {cs : List (String × Args)}
      → Calls (x ∷ xs) (c ∷ cs)
      → Matches x c
  Calls-first (next_call m rest) = m

  Calls-rest :
      {x : ExpectedToolCall Args} {xs : List (ExpectedToolCall Args)} {c : String × Args}
      {cs : List (String × Args)}
      → Calls (x ∷ xs) (c ∷ cs)
      → Calls xs cs
  Calls-rest (next_call m rest) = rest

  length-Calls :
      {xs : List (ExpectedToolCall Args)} {cs : List (String × Args)}
      → Calls xs cs
      → length cs ≡ length xs
  length-Calls no_call = refl
  length-Calls (next_call m rest) = ap suc (length-Calls rest)

  -- A transcript that expects no call allows any.
  abbrev pub CallsAsExpected : List (ExpectedToolCall Args) → List (String × Args) → Type 0
  CallsAsExpected [] calls = Unit
  CallsAsExpected (x ∷ xs) calls = Calls (x ∷ xs) calls

  abbrev pub Meets : (String → String) → GoldenTranscript Args → ActualOutcome Args → Type 0
  Meets lower t a =
      All (λ s. occurs (lower s) (lower a.final_text) ≡ true) t.expected_contains
      × All (λ s. occurs (lower s) (lower a.final_text) ≡ false) t.expected_not_contains
      × CallsAsExpected t.expected_tool_calls a.tool_calls
      × ((b : Bool) → t.expected_grounded ≡ some b → a.grounded ≡ some b)

module _ (lower quoted : String → String) where
  check_contains_iff :
      (final_text : String) (wanted : List String)
      → (check_contains lower quoted final_text wanted ≡ [])
        ↔ All (λ s. occurs (lower s) (lower final_text) ≡ true) wanted
  unfolding check_contains
  check_contains_iff final_text [] = (λ h. tt, λ h. refl)
  check_contains_iff final_text (s ∷ ss) = ground (arith, check_contains_iff final_text ss)

  check_not_contains_iff :
      (final_text : String) (banned : List String)
      → (check_not_contains lower quoted final_text banned ≡ [])
        ↔ All (λ s. occurs (lower s) (lower final_text) ≡ false) banned
  unfolding check_not_contains
  check_not_contains_iff final_text [] = (λ h. tt, λ h. refl)
  check_not_contains_iff final_text (s ∷ ss) = ground (arith, check_not_contains_iff final_text ss)

flag_differs_iff : (b : Bool) (o : Option Bool) → (flag_differs b o ≡ false) ↔ (o ≡ some b)
flag_differs_iff b none = ground arith
flag_differs_iff true (some true) = ground arith
flag_differs_iff true (some false) = ground arith
flag_differs_iff false (some true) = ground arith
flag_differs_iff false (some false) = ground arith

check_grounded_iff :
    (expected actual : Option Bool)
    → (check_grounded expected actual ≡ []) ↔ ((b : Bool) → expected ≡ some b → actual ≡ some b)
unfolding check_grounded
check_grounded_iff none actual = (λ h b k. absurd (ground arith), λ h. refl)
check_grounded_iff (some b) actual = (
  λ h c k. ground (arith, flag_differs_iff b actual),
  λ h. ground (arith, flag_differs_iff b actual, h b refl),
)

module _ {Args : Type 0} ⦃e : Eq Args⦄ (quoted : String → String) (show : Args → String) where
  check_args_iff :
      (call : String) (expected : Option Args) (args : Args)
      → (check_args quoted show call expected args ≡ [])
        ↔ ((wanted : Args) → expected ≡ some wanted → args ≡ wanted)
  unfolding check_args
  check_args_iff call none args = (λ h w k. absurd (ground arith), λ h. refl)
  check_args_iff call (some wanted) args = (
    λ h w k. ground (arith, e.beq_iff args wanted),
    λ h. ground (arith, e.beq_iff args wanted, h wanted refl),
  )

  check_call_iff :
      (i : ℕ) (expected : ExpectedToolCall Args) (call : String × Args)
      → (check_call quoted show i expected call ≡ []) ↔ Matches expected call
  unfolding check_call
  check_call_iff i expected (name, args) =
      let text = append "call " (append (str_int i) ": expected ") in
      let inner = check_args_iff text expected.arguments args in
      elim (Bool-cases (name == expected.name)) [
        | inl same ↦
            let equal = (string_eq.beq_iff name expected.name).0 same in
            rw (same) (λ h. (equal, inner.0 h), λ h. inner.1 h.1)
        | inr other ↦
            let differs = texts_differ name expected.name other in
            rw (other) (λ h. absurd (ground arith), λ h. absurd (differs h.0))
      ]

  check_calls_iff :
      (i : ℕ) (expected : List (ExpectedToolCall Args)) (calls : List (String × Args))
      → length calls ≡ length expected
      → (check_calls quoted show i expected calls ≡ []) ↔ Calls expected calls
  unfolding check_calls
  check_calls_iff i [] [] h = (λ k. no_call, λ k. refl)
  check_calls_iff i [] (c ∷ cs) h = absurd (omega arith)
  check_calls_iff i (x ∷ xs) [] h = absurd (omega arith)
  check_calls_iff i (x ∷ xs) (c ∷ cs) h =
      let both =
        append_empty (check_call quoted show i x c) (check_calls quoted show (suc i) xs cs) in
      let one = check_call_iff i x c in
      let more = check_calls_iff (suc i) xs cs (omega arith) in
      (
        λ k. next_call (one.0 (both.0 k).0) (more.0 (both.0 k).1),
        λ k. both.1 (one.1 (Calls-first k), more.1 (Calls-rest k)),
      )

  check_tool_calls_iff :
      (expected : List (ExpectedToolCall Args)) (calls : List (String × Args))
      → (check_tool_calls quoted show expected calls ≡ []) ↔ CallsAsExpected expected calls
  unfolding check_tool_calls
  check_tool_calls_iff [] calls = (λ h. tt, λ h. refl)
  check_tool_calls_iff (x ∷ xs) calls =
      elim (Bool-cases (nat_beq (length calls) (length (x ∷ xs)))) [
        | inl e ↦ rw (e) (check_calls_iff 0 (x ∷ xs) calls (ground arith))
        | inr e ↦ rw (e) (λ h. absurd (ground arith), λ h. absurd (ground (arith, length-Calls h)))
      ]

passed_iff :
    (failures : List AssertionFailure)
    → (elim failures as (λ x. Bool) [ [] ↦ true | _ ∷ _ ↦ false ] ≡ true) ↔ (failures ≡ [])
passed_iff [] = (λ h. refl, λ h. refl)
passed_iff (f ∷ fs) = ground arith

-- A transcript passes exactly where the outcome meets it: every wanted text occurs and no banned one
-- does, the calls are the expected ones in their order where any are expected, with the expected
-- arguments where some are given, and the grounding is the expected one where one is.
pub evaluate-Meets :
    {Args : Type 0} ⦃e : Eq Args⦄ (lower quoted : String → String) (show : Args → String)
    (t : GoldenTranscript Args) (a : ActualOutcome Args)
    → ((evaluate lower quoted show t a).passed ≡ true) ↔ Meets lower t a
unfolding evaluate failures_of
evaluate-Meets lower quoted show t a =
    let wanted = check_contains_iff lower quoted a.final_text t.expected_contains in
    let banned = check_not_contains_iff lower quoted a.final_text t.expected_not_contains in
    let calls = check_tool_calls_iff quoted show t.expected_tool_calls a.tool_calls in
    let grounding = check_grounded_iff t.expected_grounded a.grounded in
    let passed = passed_iff (failures_of lower quoted show t a) in
    let first = append_empty (check_contains lower quoted a.final_text t.expected_contains) (
      check_not_contains lower quoted a.final_text t.expected_not_contains
      ++ (check_tool_calls quoted show t.expected_tool_calls a.tool_calls
          ++ check_grounded t.expected_grounded a.grounded)) in
    let second =
      append_empty (check_not_contains lower quoted a.final_text t.expected_not_contains) (
        check_tool_calls quoted show t.expected_tool_calls a.tool_calls
        ++ check_grounded t.expected_grounded a.grounded) in
    let third =
      append_empty (check_tool_calls quoted show t.expected_tool_calls a.tool_calls)
        (check_grounded t.expected_grounded a.grounded) in
    (
      λ h.
          let (c, r) = first.0 (passed.0 h) in
          let (n, q) = second.0 r in
          let (k, g) = third.0 q in (wanted.0 c, banned.0 n, calls.0 k, grounding.0 g),
      λ (c, n, k, g).
          passed.1
            (first.1 (wanted.1 c, second.1 (banned.1 n, third.1 (calls.1 k, grounding.1 g)))),
    )
