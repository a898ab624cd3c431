-- ===== src/Billing.antt =====
-- saap/core/billing.py and saap/plugins/billing/lago/__init__.py: the usage events and the sink over a Lago client,
-- which is a parameter, as is the resolver of subscriptions. A time is its whole seconds.
pub mod Retries
use ai_voice.Prelude.{ℕ, String, Option, none}
use ai_voice.Prelude.Exec.{Exec}

pub record UsageEvent (F : Type 0) : Type 0 where
  pub tenant_id : String
  pub metric_code : String
  pub quantity : F
  pub transaction_id : String
  pub occurred_at : ℕ

-- `lago_python_client.models.event.Event`; its properties are the quantity.
pub record LagoEvent (F : Type 0) : Type 0 where
  pub transaction_id : String
  pub external_subscription_id : String
  pub code : String
  pub timestamp : ℕ
  pub precise_total_amount_cents : Option ℕ
  pub quantity : F

module _ {F E W : Type 0} (create : LagoEvent F → Exec E W Unit)
    (subscription_resolver : String → String) where
  unfoldable pub to_lago : UsageEvent F → LagoEvent F
  to_lago event = record {
    transaction_id = event.transaction_id;
    external_subscription_id = subscription_resolver event.tenant_id;
    code = event.metric_code;
    timestamp = event.occurred_at;
    precise_total_amount_cents = none;
    quantity = event.quantity;
  }

  -- `LagoUsageEventSink.emit`
  unfoldable pub emit : UsageEvent F → Exec E W Unit
  emit event = create (to_lago event)
