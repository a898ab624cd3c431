-- ===== src/Gateway/Entry.antt =====
-- The ways into saap/gateway: who gets a tenant context, and what the runtime is started with.
use ai_voice.Prelude.{
  ◌≡◌, ap, subst, ◌↔◌, Bool, true, false, String, Option, none, some, List, [], ◌∷◌, ◌++◌, All,
  ◌==◌, arith, inl, inr, Bool-cases, Option-cases, string_eq,
}
use ai_voice.Prelude.Dict.{Dict, lookup}
use ai_voice.Prelude.Exec.{Result, ok, err, Exec}
use ai_voice.Core.Types.{TenantContext}
use ai_voice.Gateway.Channels.{
  InboundEvent, Registrations, WebhookFailure, is_ascii, removeprefix, resolve_secret,
  verify_webhook_signature, authenticate_found, admit, authenticate_webhook,
}
use ai_voice.Gateway.Matrix.{on_message}

verify_webhook_signature_iff :
    (hexdigest : String → String → String) (secret body signature : String)
    → is_ascii (hexdigest secret body) ≡ true
    → (verify_webhook_signature hexdigest secret body signature ≡ ok true)
      ↔ (hexdigest secret body ≡ removeprefix "sha256=" signature)
unfolding verify_webhook_signature
verify_webhook_signature_iff hexdigest secret body signature a =
    let digest = hexdigest secret body in
    let provided = removeprefix "sha256=" signature in
    elim (Bool-cases (is_ascii provided)) [
      | inl plain ↦
          rw (a, plain)
            (
              λ h. (string_eq.beq_iff digest provided).0 (ground arith),
              λ h. ap (λ b. ok b) ((string_eq.beq_iff digest provided).1 h),
            )
      | inr wide ↦ (
        λ h. absurd (ground (arith, rw (a, wide) at h)),
        λ h. absurd (ground (arith, rw (h) at a)),
      )
    ]

admit_iff :
    (t tenant : TenantContext) (r : Result WebhookFailure Bool)
    → (admit t r ≡ ok tenant) ↔ ((t ≡ tenant) × (r ≡ ok true))
unfolding admit
admit_iff t tenant (err f) = ground arith
admit_iff t tenant (ok true) = ground arith
admit_iff t tenant (ok false) = ground arith

authenticate_found_iff :
    (hexdigest : String → String → String)
    (ascii : (secret body : String) → is_ascii (hexdigest secret body) ≡ true)
    (claimed body signature : String) (tenant : TenantContext)
    (found : Option (TenantContext × String))
    → (authenticate_found hexdigest claimed body signature found ≡ ok tenant) ↔ (
        (secret : String) × (found ≡ some (tenant, secret))
        × (hexdigest secret body ≡ removeprefix "sha256=" signature))
unfolding authenticate_found
authenticate_found_iff hexdigest ascii claimed body signature tenant none =
    (λ h. absurd (ground arith), λ (secret, there, same). absurd (ground arith))
authenticate_found_iff hexdigest ascii claimed body signature tenant (some (t, secret)) =
    let valid = verify_webhook_signature_iff hexdigest secret body signature (ascii secret body) in
    let admitted = admit_iff t tenant (verify_webhook_signature hexdigest secret body signature) in
    (
      λ h.
          let (same, checked) = admitted.0 h in
          (secret, ap (λ x. some (x, secret)) same, valid.0 checked),
      λ (own, there, same). admitted.1 (
        ground arith,
        valid.1
            (subst (λ x. hexdigest x body ≡ removeprefix "sha256=" signature) (ground arith) same),
      ),
    )

-- A webhook call gets a tenant context exactly where the claimed tenant is registered and the
-- signature, less its prefix, is the digest of the body under that tenant's own secret; where the
-- digest is ASCII, as hexadecimal digits are.
pub authenticate_webhook_iff :
    (hexdigest : String → String → String)
    (ascii : (secret body : String) → is_ascii (hexdigest secret body) ≡ true)
    (registrations : Registrations) (claimed body signature : String) (tenant : TenantContext)
    → (authenticate_webhook hexdigest registrations claimed body signature ≡ ok tenant) ↔ (
        (secret : String) × (lookup claimed registrations ≡ some (tenant, secret))
        × (hexdigest secret body ≡ removeprefix "sha256=" signature))
unfolding authenticate_webhook resolve_secret
authenticate_webhook_iff hexdigest ascii registrations claimed body signature tenant =
    authenticate_found_iff hexdigest ascii claimed body signature tenant
      (lookup claimed registrations)

All-snoc :
    {A : Type 0} (Q : A → Type 0) (xs : List A) (x : A) → All Q xs → Q x → All Q (xs ++ x ∷ [])
All-snoc Q [] x h k = (k, tt)
All-snoc Q (y ∷ xs) x h k = (h.0, All-snoc Q xs x h.1 k)

abbrev pub IsMapped : Dict String TenantContext → InboundEvent → Type 0
IsMapped rooms e = lookup e.session_id rooms ≡ some e.tenant

-- Whatever messages arrive, every event in the adapter's queue has the tenant that its room is
-- mapped to, by the room that its reply goes to.
pub on_message_keeps :
    (own_user_id : String) (rooms : Dict String TenantContext) (room_id sender body : String)
    (queue : List InboundEvent)
    → All (IsMapped rooms) queue
    → All (IsMapped rooms) (on_message own_user_id rooms room_id sender body queue)
unfolding on_message
on_message_keeps own_user_id rooms room_id sender body queue h =
    elim (Bool-cases (sender == own_user_id)) [
      | inl echo ↦ rw (echo, on_message) h
      | inr other ↦ elim (Option-cases (lookup room_id rooms)) [
        | inl unmapped ↦ rw (other, unmapped, on_message) h
        | inr (tenant, mapped) ↦
            rw (other, mapped, on_message) (All-snoc (IsMapped rooms) queue _ h mapped)
      ]
    ]
