-- ===== src/ModelRouter/Routing.antt =====
-- `ModelRouter.route` of saap/core/llm.py.
use ai_voice.Prelude.{◌≡◌, ◌≢◌, ap, ◌↔◌, ◌⊎◌, String, Option, none, some, string_eq, arith}
use ai_voice.Prelude.Dict.{lookup}
use ai_voice.Prelude.Exec.{ok}
use ai_voice.Core.Types.{TenantContext}
use ai_voice.ModelRouter.{ModelRouter, or_tag, configured, route_bound, route}

-- The tenant's override, if it is not empty; the deployment's default otherwise.
abbrev pub Chosen : Option String → Option String → String → Type 0
Chosen override default tag =
    ((override ≡ some tag) × (tag ≢ ""))
    ⊎ (((override ≡ none) ⊎ (override ≡ some "")) × (default ≡ some tag))

or_tag_iff : (a b : Option String) (tag : String) → (or_tag a b ≡ some tag) ↔ Chosen a b tag
unfolding or_tag
or_tag_iff none b tag = ground arith
or_tag_iff (some a) b tag = ground (arith, string_eq.beq_iff a "")

configured_iff :
    {P : Type 0} (task : String) (provider p : P) (chosen : Option String) (tag : String)
    → (configured task provider chosen ≡ ok (p, record { model = tag }))
      ↔ ((provider ≡ p) × (chosen ≡ some tag))
unfolding configured
configured_iff task provider p none tag = ground arith
configured_iff task provider p (some model_tag) tag = ground arith

route_bound_iff :
    {P : Type 0} (router : ModelRouter P) (tenant : TenantContext) (task : String)
    (bound : Option P) (p : P) (tag : String)
    → (route_bound router tenant task bound ≡ ok (p, record { model = tag })) ↔ (
        (bound ≡ some p)
        × Chosen
            (router.get_override tenant.tenant_id task)
            (lookup task router.default_models)
            tag)
unfolding route_bound
route_bound_iff router tenant task none p tag =
    (λ h. absurd (ground arith), λ h. absurd (ground (arith, h.0)))
route_bound_iff router tenant task (some provider) p tag =
    let override = router.get_override tenant.tenant_id task in
    let default = lookup task router.default_models in
    let chosen = or_tag_iff override default tag in
    let set = configured_iff task provider p (or_tag override default) tag in
    (
      λ h. let (same, tagged) = set.0 h in (ap (λ x. some x) same, chosen.0 tagged),
      λ h. set.1 (ground (arith, h.0), chosen.1 h.1),
    )

-- A task is routed exactly where a provider is bound for its profile and a model is chosen: to that
-- provider, with the tenant's own override of that profile, and the deployment's default where the
-- override is missing or empty.
pub route_iff :
    {P : Type 0} (router : ModelRouter P) (tenant : TenantContext) (task : String) (p : P)
    (tag : String)
    → (route router tenant task ≡ ok (p, record { model = tag })) ↔ (
        (lookup task router.providers ≡ some p)
        × Chosen
            (router.get_override tenant.tenant_id task)
            (lookup task router.default_models)
            tag)
unfolding route
route_iff router tenant task p tag =
    route_bound_iff router tenant task (lookup task router.providers) p tag
