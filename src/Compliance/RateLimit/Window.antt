-- ===== src/Compliance/RateLimit/Window.antt =====
-- Budgets over a fixed window, and their separation by tenant.
use ai_voice.Prelude.{
  ℕ, suc, ◌+◌, ◌≤◌, ◌<◌, true, ◌≡◌, ◌≢◌, refl, ◌∙◌, ap, String, none, some, List, [], ◌∷◌, All,
  arith, ltb, if◌then◌else◌, string_eq,
}
use ai_voice.Prelude.Dict.{lookup, get_or, lookup-insert_ne, lookup-insert_self}
use ai_voice.Prelude.Text.{append, str_int, lacks, split_first, split_first-append}
use ai_voice.Core.Types.{TenantContext}
use ai_voice.Prelude.Exec.{Result, ok, err, Lens}
use ai_voice.Compliance.Chain.{Failure, violation, Envelope}
use ai_voice.Compliance.RateLimit.{
  Counts, incr_and_get, budget_key, RateConfig, rate_before, tool_name_of, limit_for,
}

-- The state of a backend alone: the reading of the clock, and the counts.
abbrev pub the_counts : Lens (ℕ × Counts) Counts
the_counts = record { get = λ s. s.1; put = λ counts s. (s.0, counts) }

-- What the stage answers to calls that follow one another, each at its reading of the clock.
abbrev pub outcomes :
    RateConfig → TenantContext → List (ℕ × Envelope) → Counts → List (Result Failure Envelope)
outcomes cfg t [] counts = []
outcomes cfg t ((now, e) ∷ calls) counts =
    let (r, s) = rate_before cfg (λ s. s.0) the_counts t e (now, counts) in
    r ∷ outcomes cfg t calls s.1

-- The answer to a call with so many calls before it, where so many may pass.
abbrev pub verdict : String → ℕ → ℕ → Envelope → Result Failure Envelope
verdict name limit earlier e =
    if ltb earlier limit
    then ok e
    else err (
        violation "rate_limiter" (
          append "budget exceeded for " (
            append name
              (append ": " (append (str_int (suc earlier)) (append " > " (str_int limit)))))))

-- These answers for all the calls, the first with so many calls before it.
abbrev pub verdicts : String → ℕ → ℕ → List (ℕ × Envelope) → List (Result Failure Envelope)
verdicts name limit earlier [] = []
verdicts name limit earlier ((now, e) ∷ calls) =
    verdict name limit earlier e ∷ verdicts name limit (suc earlier) calls

-- Whether an envelope calls this tool, where an envelope without a tool's name calls "message".
abbrev pub Calls : String → Envelope → Type 0
Calls name e = elim e.metadata.tool_call_name [ none ↦ "message" | some n ↦ n ] ≡ name

-- A call of this tool before this instant.
abbrev pub CallBefore : String → ℕ → ℕ × Envelope → Type 0
CallBefore name until (now, e) = Calls name e × (now < until)

-- Where the clock stands within the window, the entry counts on.
incr_within :
    (now : ℕ) (key : String) (window : ℕ) (counts : Counts) (c until : ℕ)
    → lookup key counts ≡ some (c, until)
    → now < until
    → (incr_and_get now key window counts).0 ≡ c + 1
unfolding incr_and_get get_or
incr_within now key window counts c until h k = ground arith

incr_within_state :
    (now : ℕ) (key : String) (window : ℕ) (counts : Counts) (c until : ℕ)
    → lookup key counts ≡ some (c, until)
    → now < until
    → lookup key (incr_and_get now key window counts).1 ≡ some (c + 1, until)
unfolding incr_and_get get_or
incr_within_state now key window counts c until h k =
    ground (arith, lookup-insert_self key (c + 1, until) counts)

-- The entry under a key, if there is one, has run out at this reading of the clock.
abbrev pub Expired : String → ℕ → Counts → Type 0
Expired key now counts = (get_or key (0, 0) counts).1 ≤ now

incr-Expired :
    (now : ℕ) (key : String) (window : ℕ) (counts : Counts)
    → Expired key now counts
    → ((incr_and_get now key window counts).0 ≡ 1)
      × (lookup key (incr_and_get now key window counts).1 ≡ some (1, now + window))
unfolding incr_and_get
incr-Expired now key window counts h =
    ground (arith, lookup-insert_self key (1, now + window) counts)

module _ (cfg : RateConfig) (t : TenantContext) (name : String) (limit : ℕ)
    (budget : get_or name cfg.default_limit cfg.tool_limits ≡ limit) where
  -- The stage at the count that the backend returns.
  rate_before-verdict :
      (now earlier : ℕ) (e : Envelope) (counts : Counts)
      → Calls name e
      → (incr_and_get now (budget_key t name) cfg.window_seconds counts).0 ≡ suc earlier
      → rate_before cfg (λ s. s.0) the_counts t e (now, counts) ≡ (
        verdict name limit earlier e,
        (now, (incr_and_get now (budget_key t name) cfg.window_seconds counts).1),
      )
  unfolding rate_before tool_name_of limit_for
  rate_before-verdict now earlier e counts named h = rw (named, budget, h) (ground arith)

  outcomes-verdicts_open :
      (calls : List (ℕ × Envelope)) (counts : Counts) (c until : ℕ)
      → lookup (budget_key t name) counts ≡ some (c, until)
      → All (CallBefore name until) calls
      → outcomes cfg t calls counts ≡ verdicts name limit c calls
  outcomes-verdicts_open [] counts c until h k = refl
  outcomes-verdicts_open ((now, e) ∷ calls) counts c until h ((named, here), later) =
      let key = budget_key t name in
      let counts' = (incr_and_get now key cfg.window_seconds counts).1 in
      let one : (incr_and_get now key cfg.window_seconds counts).0 ≡ suc c =
        incr_within now key cfg.window_seconds counts c until h here ∙ omega arith in
      let rest : outcomes cfg t calls counts' ≡ verdicts name limit (suc c) calls =
        outcomes-verdicts_open calls counts' (suc c) until
          (incr_within_state now key cfg.window_seconds counts c until h here
            ∙ ap (λ d. some (d, until)) (omega arith))
          later in
      rw (rate_before-verdict now c e counts named one) (ap (◌∷◌ (verdict name limit c e)) rest)

  -- Calls of one tool by one tenant at the stage, the first of which opens a window and the others of
  -- which come before it ends: as many calls as the tool's limit pass unchanged, and they are the
  -- first ones; each later call is stopped by a violation with its number and the limit.
  pub outcomes-verdicts :
      (now : ℕ) (e : Envelope) (calls : List (ℕ × Envelope)) (counts : Counts)
      → Expired (append t.tenant_id (append ":" name)) now counts
      → Calls name e
      → All (CallBefore name (now + cfg.window_seconds)) calls
      → outcomes cfg t ((now, e) ∷ calls) counts ≡ verdicts name limit 0 ((now, e) ∷ calls)
  unfolding budget_key
  outcomes-verdicts now e calls counts h named k =
      let (first, entry) = incr-Expired now (budget_key t name) cfg.window_seconds counts h in
      rw (rate_before-verdict now 0 e counts named first) (
        ap (◌∷◌ (verdict name limit 0 e)) (
          outcomes-verdicts_open calls
            (incr_and_get now (budget_key t name) cfg.window_seconds counts).1 1
            (now + cfg.window_seconds) entry k))

-- The tenant and the tool name can be read back from a budget key.
split_first-budget_key :
    (t : TenantContext) (name : String)
    → lacks b':' t.tenant_id ≡ true
    → split_first b':' (budget_key t name) ≡ some (t.tenant_id, name)
unfolding budget_key
split_first-budget_key t name h = split_first-append b':' t.tenant_id ":" name h refl

budget_key_inj :
    (t u : TenantContext) (name other : String)
    → lacks b':' t.tenant_id ≡ true
    → lacks b':' u.tenant_id ≡ true
    → budget_key t name ≡ budget_key u other
    → t.tenant_id ≡ u.tenant_id
budget_key_inj t u name other h k e =
    cc (split_first-budget_key t name h, split_first-budget_key u other k, ap (split_first b':') e)

-- A call of one tenant leaves every budget of another tenant as it is, whatever the tools' names,
-- where tenant ids hold no colon.
pub budget-other_tenant :
    (t u : TenantContext) (name other : String) (now window : ℕ) (counts : Counts)
    → lacks b':' t.tenant_id ≡ true
    → lacks b':' u.tenant_id ≡ true
    → t.tenant_id ≢ u.tenant_id
    → lookup (budget_key u other) (incr_and_get now (budget_key t name) window counts).1
      ≡ lookup (budget_key u other) counts
unfolding incr_and_get
budget-other_tenant t u name other now window counts h k differ =
    lookup-insert_ne (budget_key t name) (budget_key u other) _ counts
      (λ e. differ (budget_key_inj t u name other h k e))
