-- ===== src/Compliance/RateLimit.antt =====
-- saap/compliance/rate_limit.py: fixed-window counters and the fourth stage.
-- A reading of `time.monotonic()` is a number of ticks; windows are counted in the same unit.
pub mod Window
use ai_voice.Prelude.{ℕ, ◌+◌, String, none, some, string_eq, leb, ltb, if◌then◌else◌, []}
use ai_voice.Prelude.Dict.{Dict, insert, get_or}
use ai_voice.Prelude.Text.{append, str_int}
use ai_voice.Prelude.Exec.{ok, err, Exec, Lens}
use ai_voice.Core.Types.{TenantContext}
use ai_voice.Compliance.Chain.{Failure, violation, Envelope, Interceptor}

-- `InMemoryRateLimitBackend._counts`: key -> (count, expires_at)
abbrev pub Counts : Type 0
Counts = Dict String (ℕ × ℕ)

-- `InMemoryRateLimitBackend.incr_and_get` at the reading `now`
unfoldable pub incr_and_get : (now : ℕ) → (key : String) → (window : ℕ) → Counts → ℕ × Counts
incr_and_get now key window counts =
    let (count, expires_at) = get_or key (0, 0) counts in
    let (count', expires_at') : ℕ × ℕ =
      if leb expires_at now then (0, now + window) else (count, expires_at) in
    (count' + 1, insert key (count' + 1, expires_at') counts)

pub record RateConfig : Type 0 where
  pub default_limit : ℕ
  pub window_seconds : ℕ
  pub tool_limits : Dict String ℕ

unfoldable pub default_rates : RateConfig
default_rates = record { default_limit = 60; window_seconds = 60; tool_limits = [] }

-- envelope.metadata.get("tool_call_name", "message")
unfoldable pub tool_name_of : Envelope → String
tool_name_of e = elim e.metadata.tool_call_name [ none ↦ "message" | some n ↦ n ]

-- f"{tenant.tenant_id}:{tool_name}"
unfoldable pub budget_key : TenantContext → String → String
unfolding append
budget_key tenant tool_name = append tenant.tenant_id (append ":" tool_name)

unfoldable pub limit_for : RateConfig → String → ℕ
limit_for cfg tool_name = get_or tool_name cfg.default_limit cfg.tool_limits

module _ {S : Type 0} (cfg : RateConfig) (monotonic : S → ℕ) (backend : Lens S Counts) where
  unfoldable pub rate_before : TenantContext → Envelope → Exec Failure S Envelope
  unfolding tool_name_of
  rate_before tenant e s =
      let tool_name = tool_name_of e in
      let limit = limit_for cfg tool_name in
      let (count, counts) =
        incr_and_get (monotonic s) (budget_key tenant tool_name) cfg.window_seconds
          (backend.get s) in
      (
        if ltb limit count
            then err (
                violation "rate_limiter" (
                  append "budget exceeded for " (
                    append tool_name
                      (append ": " (append (str_int count) (append " > " (str_int limit)))))))
            else ok e,
        backend.put counts s,
      )

  unfoldable pub rate_limiter : Interceptor S
  unfolding rate_before
  rate_limiter = record {
    name = "rate_limiter";
    before = rate_before;
    after = λ tenant e s. (ok e, s);
  }
