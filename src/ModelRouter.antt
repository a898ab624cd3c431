-- ===== src/ModelRouter.antt =====
-- saap/core/llm.py: the router over task profiles, and model_router_llm.py of
-- saap/langflow_components/logic. A provider is a parameter; so is a store of overrides that is backed
-- by a database.
pub mod Routing
use ai_voice.Prelude.{
  Bool, true, false, not, ◌≡◌, refl, ◌↔◌, ◌⊎◌, inl, inr, String, Option, none, some, List, ◌==◌,
  string_eq, arith, Bool-cases, Option-cases, texts_differ, ◌≢◌, if◌then◌else◌,
}
use ai_voice.Prelude.Dict.{Dict, lookup}
use ai_voice.Prelude.Exec.{Result, ok, err}
use ai_voice.Core.Types.{TenantContext}

-- The fields that the router sets or leaves at their defaults; only the model differs.
pub record GenerationConfig : Type 0 where
  pub model : String

pub data RoutingError : Type 0 where
  no_provider : String → RoutingError
  no_default_model : String → RoutingError

-- `NoOverridesPolicyStore`
unfoldable pub no_override : String → String → Option String
no_override tenant_id profile = none

unfoldable pub set_no_override : String → String → String → Result String (Unit {0})
set_no_override tenant_id profile model_tag = err "NoOverridesPolicyStore is read-only"

-- a or b, where "" counts as missing
unfoldable pub or_tag : Option String → Option String → Option String
or_tag none b = b
or_tag (some a) b = if a == "" then b else some a

pub record ModelRouter (P : Type 0) : Type 0 where
  pub providers : Dict String P
  pub get_override : String → String → Option String
  pub default_models : Dict String String

unfoldable pub configured :
    {P : Type 0} → String → P → Option String → Result RoutingError (P × GenerationConfig)
configured task provider none = err (no_default_model task)
configured task provider (some model_tag) = ok (provider, record { model = model_tag })

unfoldable pub route_bound :
    {P : Type 0}
    → ModelRouter P
    → TenantContext
    → String
    → Option P
    → Result RoutingError (P × GenerationConfig)
route_bound router tenant task none = err (no_provider task)
route_bound router tenant task (some provider) =
    configured task provider
      (or_tag (router.get_override tenant.tenant_id task) (lookup task router.default_models))

unfoldable pub route :
    {P : Type 0}
    → ModelRouter P
    → TenantContext
    → String
    → Result RoutingError (P × GenerationConfig)
route router tenant task = route_bound router tenant task (lookup task router.providers)

-- `ModelRouterLLMLogic.generate`, over what a provider does with a configuration
unfoldable pub routed_generate :
    {P A : Type 0}
    → ModelRouter P
    → (P → GenerationConfig → A)
    → TenantContext
    → String
    → Result RoutingError A
routed_generate router run tenant profile = elim (route router tenant profile) [
  | err e ↦ err e
  | ok (provider, config) ↦ ok (run provider config)
]
