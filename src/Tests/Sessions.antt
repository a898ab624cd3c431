-- ===== src/Tests/Sessions.antt =====
-- Runs of the in-process orchestrator, a webhook call and a chat session.
use ai_voice.Prelude.{
  ℕ, ◌+◌, ◌≡◌, refl, true, false, String, some, none, List, [], ◌∷◌, ◌++◌, arith,
}
use ai_voice.Prelude.Dict.{lookup}
use ai_voice.Core.TokenPattern.{strip_prefix}
use ai_voice.Prelude.Exec.{Result, ok, Exec}
use ai_voice.Core.Types.{TenantContext, Message, Locale}
use ai_voice.Core.Flow.{FlowRunEvent}
use ai_voice.Compliance.Chain.{Failure}
use ai_voice.Gateway.Runs.{
  RunState, drives, cancels, takes, start_run, act_all, repeat, error_events, act, drive,
  drive_step, cancel, cancel_task, take_event, take_queue,
}
use ai_voice.Gateway.Stream.{steps_left, events_end, cancelled_first_hangs}
use ai_voice.Gateway.Delivery.{yielded-events}
use ai_voice.Gateway.Channels.{WidgetClaims, authenticate_webhook, is_ascii, removeprefix}
use ai_voice.Gateway.Entry.{authenticate_webhook_iff}
use ai_voice.Tests.Fixtures.{clinic}

abbrev token_event : FlowRunEvent
token_event = record { kind = "token"; payload = some "a" }

-- The run is cancelled after it has yielded a token.
abbrev cancelled_run : RunState
cancelled_run =
    act_all (drives ∷ drives ∷ cancels ∷ [])
      (start_run (token_event ∷ token_event ∷ []) (some "lost"))

events_end_example : (repeat 2 takes (repeat 1 drives cancelled_run)).ended ≡ true
unfolding steps_left act_all act drive drive_step cancel cancel_task take_event take_queue start_run
events_end_example =
    events_end (token_event ∷ token_event ∷ []) (some "lost") (drives ∷ cancels ∷ []) cancelled_run
      1 2 refl (omega arith) (omega arith)

cancelled_first_hangs_example :
    (act_all (cancels ∷ drives ∷ takes ∷ []) (start_run (token_event ∷ []) none)).ended ≡ false
cancelled_first_hangs_example = cancelled_first_hangs (token_event ∷ []) none (drives ∷ takes ∷ [])

yielded-events_example :
    (act_all
      (drives ∷ drives ∷ takes ∷ drives ∷ drives ∷ takes ∷ takes ∷ [])
      (start_run (token_event ∷ []) (some "lost"))).yielded
    ≡ (token_event ∷ []) ++ error_events (some "lost")
unfolding act_all act drive drive_step cancel cancel_task take_event take_queue start_run
yielded-events_example =
    yielded-events (token_event ∷ []) (some "lost")
      (drives ∷ drives ∷ takes ∷ drives ∷ drives ∷ takes ∷ takes ∷ []) refl refl

-- A digest that is the body itself would not be ASCII for every body; this one is.
abbrev flat_digest : String → String → String
flat_digest secret body = "00ff"

authenticate_webhook_iff_example :
    authenticate_webhook flat_digest (("clinic", (clinic, "s")) ∷ []) "clinic" "{}" "sha256=00ff"
    ≡ ok clinic
unfolding is_ascii lookup removeprefix strip_prefix
authenticate_webhook_iff_example =
    (authenticate_webhook_iff flat_digest (λ secret body. refl) (("clinic", (clinic, "s")) ∷ [])
        "clinic" "{}" "sha256=00ff" clinic).1
      ("s", refl, refl)

-- The world counts the runs.
abbrev count_start : TenantContext → Message → Exec Failure ℕ String
count_start tenant message n = (ok "run", n + 1)

abbrev one_event : String → Exec Failure ℕ (List FlowRunEvent)
one_event run_id n = (ok (token_event ∷ []), n)

abbrev widget : String → Result String WidgetClaims
widget token = ok record {
  tenant_id = "clinic";
  vertical = "dental";
  locale = Locale.en_in;
  data_residency = "in";
}
