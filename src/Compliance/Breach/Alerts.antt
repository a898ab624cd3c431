-- ===== src/Compliance/Breach/Alerts.antt =====
-- The detector and the monitor of saap/compliance/breach.py: how many alerts they raise.
use ai_voice.Prelude.{
  ℕ, ◌+◌, ◌-◌, ◌≤◌, ◌<◌, ◌≡◌, refl, ap, String, Option, none, List, [], ◌∷◌, ◌++◌, All, keep,
  length, length-append, arith, ltb, if◌then◌else◌,
}
use ai_voice.Prelude.Exec.{ok}
use ai_voice.Core.Types.{TenantContext}
use ai_voice.Compliance.Platform.{Platform}
use ai_voice.Compliance.Audit.{Payload, empty_store}
use ai_voice.Compliance.Audit.Integrity.{append_all, verify_chain-append_all}
use ai_voice.Compliance.Pii.{TokenVault, resolve}
use ai_voice.Compliance.Breach.{
  BreachAlert, MonitorConfig, Monitor, check, raise_alert, monitored_resolve, excess_alert,
}

module _ (p : Platform) where
  -- A store that was only appended to raises no alert, for any tenant.
  pub check-append_all :
      (events : List (String × String × Payload)) (now : ℕ) (tenant : TenantContext)
      (alerts : List BreachAlert)
      → check p now (append_all p events empty_store) tenant alerts ≡ (none, alerts)
  unfolding check
  check-append_all events now tenant alerts =
      rw (verify_chain-append_all p events tenant.tenant_id, check) refl

  module _ (cfg : MonitorConfig) (vault : TokenVault) where
    -- Resolutions of tokens that the vault answers, at the readings of the clock given.
    abbrev pub resolve_all : List (ℕ × String) → Monitor → Monitor
    resolve_all [] m = m
    resolve_all ((now, token) ∷ calls) m =
        resolve_all calls (monitored_resolve p cfg vault now token m).1

    keep-all :
        (now window start : ℕ) (recent : List ℕ)
        → now < start + window
        → All (λ t. start ≤ t) recent
        → keep (λ t. ltb now (t + window)) recent ≡ recent
    keep-all now window start [] h k = refl
    keep-all now window start (t ∷ recent) h k =
        ground (arith, keep-all now window start recent h k.1)

    -- The vault answers this token, with a value or with none, and the call is in the window.
    abbrev pub Answered : ℕ → ℕ × String → Type 0
    Answered start (now, token) =
        (start ≤ now)
        × (now < start + cfg.window_seconds)
        × ((v : Option String) × (resolve p vault token ≡ ok v))

    monitored_resolve-Answered :
        (start now : ℕ) (token : String) (m : Monitor)
        → All (λ t. start ≤ t) m.recent_calls
        → Answered start (now, token)
        → (monitored_resolve p cfg vault now token m).1 ≡ (
            let recent = m.recent_calls ++ now ∷ [] in
            record {
              recent_calls = recent;
              alerts =
                  if ltb cfg.threshold (length recent)
                  then raise_alert
                      (excess_alert p cfg (length recent) now (length m.alerts))
                      m.alerts
                  else m.alerts;
            })
    unfolding monitored_resolve
    monitored_resolve-Answered start now token m h (low, high, (v, answer)) =
        rw (answer, monitored_resolve)
          (rw (keep-all now cfg.window_seconds start m.recent_calls high h) refl)

    All-snoc :
        (start now : ℕ) (recent : List ℕ)
        → start ≤ now
        → All (λ t. start ≤ t) recent
        → All (λ t. start ≤ t) (recent ++ now ∷ [])
    All-snoc start now [] h k = (h, tt)
    All-snoc start now (t ∷ recent) h (first, rest) = (first, All-snoc start now recent h rest)

    -- One call in the window: what it adds to the calls and to the alerts.
    Answered-step :
        (start now : ℕ) (token : String) (m : Monitor)
        → All (λ t. start ≤ t) m.recent_calls
        → Answered start (now, token)
        → (let m' = (monitored_resolve p cfg vault now token m).1 in
            (m'.recent_calls ≡ m.recent_calls ++ now ∷ [])
            × (length m'.alerts ≡ (
                if ltb cfg.threshold (length m.recent_calls + 1)
                then length m.alerts + 1
                else length m.alerts)))
    unfolding raise_alert
    Answered-step start now token m h answered =
        rw (monitored_resolve-Answered start now token m h answered) (
          refl,
          (rw (length-append m.recent_calls (now ∷ [])) (
              ground (
                arith,
                length-append m.alerts
                    (excess_alert p cfg (length m.recent_calls + 1) now (length m.alerts) ∷ []),
              ))),
        )

    burst_alerts :
        (start : ℕ) (calls : List (ℕ × String)) (m : Monitor)
        → All (λ t. start ≤ t) m.recent_calls
        → All (Answered start) calls
        → length (resolve_all calls m).alerts + (length m.recent_calls - cfg.threshold)
          ≡ length m.alerts + (length m.recent_calls + length calls - cfg.threshold)
    burst_alerts start [] m h k = omega arith
    burst_alerts start ((now, token) ∷ calls) m h (answered, rest) =
        let m' = (monitored_resolve p cfg vault now token m).1 in
        let (recent, alerts) = Answered-step start now token m h answered in
        let later =
          burst_alerts start calls m' (rw (recent) (All-snoc start now m.recent_calls answered.0 h))
            rest in
        ground (
          arith,
          later,
          ap (length {A = ℕ}) recent,
          length-append m.recent_calls (now ∷ []),
          alerts,
        )

    -- A burst of resolutions within one window raises an alert for every one of them above the
    -- threshold, and for no other.
    pub resolve_all-burst :
        (start : ℕ) (calls : List (ℕ × String))
        → All (Answered start) calls
        → length (resolve_all calls (record { recent_calls = []; alerts = [] })).alerts
          ≡ length calls - cfg.threshold
    resolve_all-burst start calls h =
        omega (arith, burst_alerts start calls (record { recent_calls = []; alerts = [] }) tt h)
