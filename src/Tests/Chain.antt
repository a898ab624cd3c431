-- ===== src/Tests/Chain.antt =====
-- The chain, the budgets and the gateway at concrete inputs.
use ai_voice.Prelude.{ℕ, ◌+◌, ◌≡◌, refl, List, [], ◌∷◌, arith, string_eq}
use ai_voice.Prelude.Dict.{lookup, get_or}
use ai_voice.Prelude.Exec.{ok, err, continue, ◌>>=◌}
use ai_voice.Core.Types.{has_consent}
use ai_voice.Compliance.Chain.{
  violation, refused, Interceptor, InnerCall, safe_refusal_text, before_loop, interceptor_names,
  wrap, run_before, run_after,
}
use ai_voice.Compliance.Chain.Onion.{onion, wrap-onion}
use ai_voice.Compliance.Chain.TwoPhase.{passed, backwards, tagged, run_after-run_before}
use ai_voice.Compliance.Consent.{static_has_grant, consent_before, consent_gate, required_purpose}
use ai_voice.Compliance.RateLimit.{RateConfig}
use ai_voice.Compliance.RateLimit.Window.{outcomes, verdicts, outcomes-verdicts}
use ai_voice.Compliance.Runtime.{intercepted_start}
use ai_voice.Gateway.Defs.{build_compliance_chain, in_process_start}
use ai_voice.Gateway.Refusals.{start_without_consent, refusal_leaves_audit}
use ai_voice.Tests.Fixtures.{plain, clinic, hello, hello_envelope, flow, finds_nothing, idle}

-- A stage that counts its calls, and one that stops every message.
abbrev counting : Interceptor ℕ
counting = record {
  name = "counting";
  before = λ t e s. (ok e, s + 1);
  after = λ t e s. (ok e, s + 10);
}

abbrev stopping : Interceptor ℕ
stopping = record {
  name = "stopping";
  before = λ t e s. (err (violation "stopping" "always"), s);
  after = λ t e s. (ok e, s + 100);
}

abbrev two_stages : List (Interceptor ℕ)
two_stages = counting ∷ stopping ∷ []

abbrev no_inner : InnerCall ℕ
no_inner = λ t e s. (ok e, s + 1000)

wrap-onion_example :
    wrap two_stages clinic hello_envelope no_inner 0
    ≡ onion clinic no_inner two_stages hello_envelope 0
wrap-onion_example = wrap-onion clinic no_inner two_stages hello_envelope 0

run_after-run_before_example :
    (run_before two_stages clinic hello_envelope >>= run_after two_stages clinic) 0 ≡ (
      let (ran, r, s') = passed clinic two_stages hello_envelope 0 in
      continue r (λ e'. backwards clinic ran (tagged ran e')) s')
run_after-run_before_example =
    run_after-run_before two_stages clinic (unfold interceptor_names in (refl, (refl, tt)))
      hello_envelope 0

-- Two calls in a minute, of messages; three of them are made.
abbrev two_a_minute : RateConfig
two_a_minute = record { default_limit = 2; window_seconds = 60; tool_limits = [] }

outcomes-verdicts_example :
    outcomes two_a_minute clinic
      ((100, hello_envelope) ∷ (110, hello_envelope) ∷ (120, hello_envelope) ∷ [])
      []
    ≡ verdicts "message" 2 0
        ((100, hello_envelope) ∷ (110, hello_envelope) ∷ (120, hello_envelope) ∷ [])
outcomes-verdicts_example =
    outcomes-verdicts two_a_minute clinic "message" 2 (unfold get_or lookup in refl) 100
      hello_envelope ((110, hello_envelope) ∷ (120, hello_envelope) ∷ []) []
      (unfold get_or lookup in omega arith) refl ((refl, omega arith), ((refl, omega arith), tt))

start_without_consent_example :
    intercepted_start
      (in_process_start plain finds_nothing)
      (build_compliance_chain plain finds_nothing)
      clinic
      flow
      hello
      "s"
      "marketing"
      idle
    ≡ (err (refused safe_refusal_text), idle)
start_without_consent_example =
    start_without_consent plain finds_nothing (in_process_start plain finds_nothing) clinic flow
      hello "s" "marketing" idle (unfold has_consent in refl)

refusal_leaves_audit_example :
    (wrap
      (build_compliance_chain plain finds_nothing)
      (record clinic { consent_scope = [] })
      hello_envelope
      (λ t e s. (ok e, s))
      idle).1.audit
    ≡ idle.audit
refusal_leaves_audit_example =
    refusal_leaves_audit plain finds_nothing (record clinic { consent_scope = [] }) hello_envelope
      (λ t e s. (ok e, s)) idle
      (unfold before_loop build_compliance_chain consent_gate consent_before static_has_grant
          has_consent required_purpose in
        λ h. cc)
