-- ===== src/Gateway/Channels.antt =====
-- The channels of saap/gateway: channels.py, auth.py and webhook.py. HMAC, JWT, pydantic and `uuid` are
-- parameters.
use Prim.Native.Char.{code}
use Prim.Native.String.{[], ◌∷◌}
use ai_voice.Prelude.{
  Bool, true, false, ◌&&◌, String, Option, none, some, List, ◌++◌, ◌==◌, ltb, string_eq,
  if◌then◌else◌,
}
use ai_voice.Prelude.Dict.{Dict, insert, lookup}
use ai_voice.Prelude.Text.{append}
use ai_voice.Prelude.Exec.{Result, ok, err}
use ai_voice.Core.Types.{TenantContext, Locale, Message, Role, DataClass}
use ai_voice.Core.Flow.{FlowRunEvent}
use ai_voice.Core.TokenPattern.{strip_prefix}

-- channels.py
pub record InboundEvent : Type 0 where
  pub tenant : TenantContext
  pub channel : String
  pub session_id : String
  pub message : Message
  pub raw_ref : Option String

-- Message(role="user", content=content)
abbrev pub user_message : String → Message
user_message content = record {
  role = Role.user;
  content = content;
  name = none;
  data_class = DataClass.personal;
  metadata = List.[];
}

-- auth.py
pub record WidgetClaims : Type 0 where
  pub tenant_id : String
  pub vertical : String
  pub locale : Locale
  pub data_residency : String

-- `DevSharedSecretVerifier.verify`, over `jwt.decode` with the secret and `model_validate`. The errors
-- are texts here.
unfoldable pub verify_token :
    {Payload : Type 0}
    → (String → String → Result String Payload)
    → (Payload → Result String WidgetClaims)
    → String
    → String
    → Result String WidgetClaims
verify_token decode model_validate secret token = elim (decode token secret) [
  | err exc ↦ err (append "invalid widget token: " exc)
  | ok payload ↦ elim (model_validate payload) [
    | err exc ↦ err (append "widget token missing required claims: " exc)
    | ok claims ↦ ok claims
  ]
]

-- `KeycloakJWKSVerifier.verify`, over the key that the JWKS client finds for a token, `jwt.decode` with
-- RS256 and the audience, and `model_validate`.
unfoldable pub verify_jwks :
    {Key Payload : Type 0}
    → (String → Result String Key)
    → (String → Key → String → Result String Payload)
    → (Payload → Result String WidgetClaims)
    → String
    → String
    → Result String WidgetClaims
verify_jwks get_signing_key decode model_validate audience token = elim (get_signing_key token) [
  | err exc ↦ err (append "invalid widget token: " exc)
  | ok key ↦ elim (decode token key audience) [
    | err exc ↦ err (append "invalid widget token: " exc)
    | ok payload ↦ elim (model_validate payload) [
      | err exc ↦ err (append "widget token missing required claims: " exc)
      | ok claims ↦ ok claims
    ]
  ]
]

-- `uuid_of` reads a UUID; its failure is a `ValueError`. `trace_id` is the new one.
unfoldable pub claims_to_tenant :
    (String → Option String) → String → WidgetClaims → Option TenantContext
claims_to_tenant uuid_of trace_id claims = elim (uuid_of claims.tenant_id) [
  | none ↦ none
  | some tenant_id ↦ some record {
    tenant_id = tenant_id;
    vertical = claims.vertical;
    locale = claims.locale;
    data_residency = claims.data_residency;
    consent_scope = List.◌∷◌ "service" List.[];
    trace_id = trace_id;
  }
]

-- webhook.py: tenant id -> (tenant, secret)
abbrev pub Registrations : Type 0
Registrations = Dict String (TenantContext × String)

unfoldable pub register : String → TenantContext → String → Registrations → Registrations
register claimed_tenant_id tenant secret registrations =
    insert claimed_tenant_id (tenant, secret) registrations

unfoldable pub resolve_secret : String → Registrations → Option (TenantContext × String)
resolve_secret claimed_tenant_id registrations = lookup claimed_tenant_id registrations

unfoldable pub is_ascii : String → Bool
is_ascii [] = true
is_ascii (c ∷ s) = ltb (code c) 128 && is_ascii s

-- s.removeprefix(t)
unfoldable pub removeprefix : String → String → String
removeprefix t s = elim (strip_prefix t s) [ none ↦ s | some rest ↦ rest ]

pub data WebhookFailure : Type 0 where
  unknown_tenant : String → WebhookFailure
  bad_signature : WebhookFailure
  not_ascii : WebhookFailure

-- What follows the check: its error, or the refusal of a signature that does not match.
unfoldable pub admit :
    TenantContext → Result WebhookFailure Bool → Result WebhookFailure TenantContext
admit tenant (err f) = err f
admit tenant (ok true) = ok tenant
admit tenant (ok false) = err bad_signature

module _ (hexdigest : String → String → String) where
  -- `hmac.compare_digest` raises a `TypeError` on a text that is not ASCII.
  unfoldable pub verify_webhook_signature : String → String → String → Result WebhookFailure Bool
  verify_webhook_signature secret body signature =
      let provided = removeprefix "sha256=" signature in
      if is_ascii (hexdigest secret body) && is_ascii provided
      then ok (hexdigest secret body == provided)
      else err not_ascii

  unfoldable pub authenticate_found :
      String
      → String
      → String
      → Option (TenantContext × String)
      → Result WebhookFailure TenantContext
  authenticate_found claimed_tenant_id body signature none = err (unknown_tenant claimed_tenant_id)
  authenticate_found claimed_tenant_id body signature (some (tenant, secret)) =
      admit tenant (verify_webhook_signature secret body signature)

  unfoldable pub authenticate_webhook :
      Registrations → String → String → String → Result WebhookFailure TenantContext
  authenticate_webhook registrations claimed_tenant_id body signature =
      authenticate_found claimed_tenant_id body signature
        (resolve_secret claimed_tenant_id registrations)

-- `WebhookAdapter`: one event in, and the events of its run collected.
unfoldable pub webhook_listen : TenantContext → String → Message → List InboundEvent
webhook_listen tenant session_id message =
    List.◌∷◌
      record {
        tenant = tenant;
        channel = "webhook";
        session_id = session_id;
        message = message;
        raw_ref = none;
      }
      List.[]

unfoldable pub webhook_render : List FlowRunEvent → List FlowRunEvent → List FlowRunEvent
webhook_render events rendered_events = rendered_events ++ events
