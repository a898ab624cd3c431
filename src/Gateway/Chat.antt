-- ===== src/Gateway/Chat.antt =====
-- The chat widget of saap/gateway: webchat.py, and the session loop `ws_chat` of app.py. `str.strip` is a
-- parameter.
use ai_voice.Prelude.{String, Option, none, some, List, ◌++◌, ◌==◌, string_eq, if◌then◌else◌}
use ai_voice.Prelude.Exec.{Result, ok, err, Exec}
use ai_voice.Core.Types.{TenantContext, Message}
use ai_voice.Core.Flow.{FlowRunEvent}
use ai_voice.Compliance.Chain.{Failure, violation, refused, error}
use ai_voice.Gateway.Channels.{user_message, WidgetClaims, claims_to_tenant}

-- A session of the chat widget: the world of the runtime, and the frames that were sent.
pub record ChatState (S : Type 0) : Type 0 where
  pub world : S
  pub sent : List FlowRunEvent

-- How `ws_chat` leaves: closed with the code 4401, by an exception, or when the client is gone.
pub data ChatEnd : Type 0 where
  invalid_token : ChatEnd
  raised : Failure → ChatEnd
  disconnected : ChatEnd

-- What `listen` reads: an object with a content, `none` where it is missing or a false value; or a
-- frame that raises, by the exception's text: one that is no JSON or no object, or whose content
-- has no `strip`.
pub data Frame : Type 0 where
  content : Option String → Frame
  broken : (text : String) → Frame

-- `render_refusal`
abbrev pub refusal_frame : String → FlowRunEvent
refusal_frame refusal_text = record { kind = "final"; payload = some refusal_text }

module _ {S : Type 0} (strip : String → String)
    (start : TenantContext → Message → Exec Failure S String)
    (events : String → Exec Failure S (List FlowRunEvent)) where
  unfoldable pub render_run :
      Result Failure (List FlowRunEvent) → ChatState S → Result Failure (Unit {0}) × ChatState S
  render_run (ok es) st = (ok tt, record st { sent = st.sent ++ es })
  render_run (err f) st = (err f, st)

  unfoldable pub after_start :
      Result Failure String → ChatState S → Result Failure (Unit {0}) × ChatState S
  after_start (ok run_id) st =
      let (r, w) = events run_id st.world in render_run r (record st { world = w })
  after_start (err (refused text)) st =
      (ok tt, record st { sent = st.sent ++ List.◌∷◌ (refusal_frame text) List.[] })
  after_start (err (violation i reason)) st = (err (violation i reason), st)
  after_start (err (error text)) st = (err (error text), st)

  -- One frame from the client: `listen` passes over a content that is missing or blank.
  unfoldable pub chat_round :
      TenantContext → Option String → ChatState S → Result Failure (Unit {0}) × ChatState S
  chat_round tenant given st =
      let text = strip (elim given [ none ↦ "" | some c ↦ c ]) in
      if text == ""
      then (ok tt, st)
      else let (r, w) = start tenant (user_message text) st.world in
        after_start r (record st { world = w })

  unfoldable pub chat_loop : TenantContext → List Frame → ChatState S → ChatEnd × ChatState S
  chat_loop tenant List.[] st = (disconnected, st)
  chat_loop tenant (List.◌∷◌ (broken text) more) st = (raised (error text), st)
  chat_loop tenant (List.◌∷◌ (content given) more) st =
      let (r, st') = chat_round tenant given st in
      elim r [ ok _ ↦ chat_loop tenant more st' | err f ↦ (raised f, st') ]

  unfoldable pub ws_chat :
      (String → Result String WidgetClaims)
      → (String → Option String)
      → String
      → String
      → List Frame
      → S
      → ChatEnd × ChatState S
  ws_chat verify uuid_of trace_id token received w =
      let st : ChatState S = record { world = w; sent = List.[] } in
      elim (verify token) [
        | err _ ↦ (invalid_token, st)
        | ok claims ↦ elim (claims_to_tenant uuid_of trace_id claims) [
          | none ↦ (raised (error "badly formed hexadecimal UUID string"), st)
          | some tenant ↦ chat_loop tenant received st
        ]
      ]
