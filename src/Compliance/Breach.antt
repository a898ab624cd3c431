-- ===== src/Compliance/Breach.antt =====
-- saap/compliance/breach.py: alerts, the audit-chain detector and the vault monitor. An instant is a
-- number of seconds; `time_remaining` is left out, a signed number that only `is_overdue` reads.
pub mod Alerts
use ai_voice.Prelude.{
  ℕ, suc, ◌+◌, ◌*◌, Bool, String, Option, none, some, List, [], ◌∷◌, ◌++◌, keep, length, leb, ltb,
  if◌then◌else◌,
}
use ai_voice.Prelude.Text.{append, str_int}
use ai_voice.Prelude.Exec.{Result, ok, err}
use ai_voice.Core.Types.{TenantContext}
use ai_voice.Compliance.Chain.{Failure}
use ai_voice.Compliance.Platform.{Platform}
use ai_voice.Compliance.Audit.{AuditStore, TamperDetected, verify_chain}
use ai_voice.Compliance.Pii.{TokenVault, resolve}

abbrev pub breach_notification_window : ℕ
breach_notification_window = 72 * 3600

pub record BreachAlert : Type 0 where
  pub alert_id : String
  pub tenant_id : String
  pub kind : String
  pub detail : String
  pub detected_at : ℕ

unfoldable pub notification_deadline : BreachAlert → ℕ
notification_deadline alert = alert.detected_at + breach_notification_window

-- deadline - now <= 0
unfoldable pub is_overdue : BreachAlert → ℕ → Bool
is_overdue alert now = leb (notification_deadline alert) now

-- `InMemoryBreachAlertSink.raise_alert`
unfoldable pub raise_alert : BreachAlert → List BreachAlert → List BreachAlert
raise_alert alert alerts = alerts ++ alert ∷ []

-- str(exc) of a `TamperDetected`
unfoldable pub tamper_text : TamperDetected → String
tamper_text e =
    append "audit chain tamper detected for tenant "
      (append e.tenant_id (append ": row " (append e.row_id " hash mismatch")))

-- `VaultAccessMonitor.__init__`
pub record MonitorConfig : Type 0 where
  pub tenant_id : String
  pub threshold : ℕ
  pub window_seconds : ℕ

-- `_recent_calls`, and the sink's alerts.
pub record Monitor : Type 0 where
  pub recent_calls : List ℕ
  pub alerts : List BreachAlert

module _ (p : Platform) where
  -- `AuditChainBreachDetector.check` at the instant `now`
  unfoldable pub check :
      ℕ → AuditStore → TenantContext → List BreachAlert → Option BreachAlert × List BreachAlert
  check now store tenant alerts = elim (verify_chain p store tenant.tenant_id) [
    | ok _ ↦ (none, alerts)
    | err exc ↦
        (let alert : BreachAlert = record {
          alert_id = p.uuid4 (length alerts);
          tenant_id = tenant.tenant_id;
          kind = "tamper_detected";
          detail = tamper_text exc;
          detected_at = now;
        } in
          (some alert, raise_alert alert alerts))
  ]

  unfoldable pub excess_alert : MonitorConfig → ℕ → ℕ → ℕ → BreachAlert
  excess_alert cfg n now drawn = record {
    alert_id = p.uuid4 drawn;
    tenant_id = cfg.tenant_id;
    kind = "anomalous_vault_access";
    detail = append (str_int n) (
        append " vault resolves within " (
          append (str_int cfg.window_seconds)
            (append "s (threshold " (append (str_int cfg.threshold) ")"))));
    detected_at = now;
  }

  -- `now - t < window` is written without the difference. A `resolve` of the vault that raises is
  -- reached after the call has been counted and before the alert.
  unfoldable pub monitored_resolve :
      MonitorConfig → TokenVault → ℕ → String → Monitor → Result Failure (Option String) × Monitor
  monitored_resolve cfg vault now token m =
      let recent : List ℕ =
        keep (λ t. ltb now (t + cfg.window_seconds)) m.recent_calls ++ now ∷ [] in
      elim (resolve p vault token) [
        | err f ↦ (err f, record m { recent_calls = recent })
        | ok value ↦ (
          ok value,
          record {
            recent_calls = recent;
            alerts =
                if ltb cfg.threshold (length recent)
                then raise_alert (excess_alert cfg (length recent) now (length m.alerts)) m.alerts
                else m.alerts;
          },
        )
      ]
