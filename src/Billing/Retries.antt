-- ===== src/Billing/Retries.antt =====
-- Emitting a usage event again over saap/plugins/billing/lago/__init__.py.
use ai_voice.Prelude.{◌≡◌, true, String, List, [], ◌∷◌, elem, string_eq}
use ai_voice.Prelude.Exec.{ok, Exec}
use ai_voice.Billing.{UsageEvent, LagoEvent, to_lago, emit}

-- What Lago documents of transaction ids, of which `billed` is the list in its world: an event with one
-- that is known changes nothing, one that was accepted is known, and none is forgotten.
pub record IsIdempotent {F E W : Type 0} (create : LagoEvent F → Exec E W Unit)
    (billed : W → List String) : Type 0 where
  pub known_ignored :
      (event : LagoEvent F) (w : W)
      → elem event.transaction_id (billed w) ≡ true
      → (create event w).1 ≡ w
  pub accepted_known :
      (event : LagoEvent F) (w w' : W)
      → create event w ≡ (ok tt, w')
      → elem event.transaction_id (billed w') ≡ true
  pub none_forgotten :
      (id : String) (event : LagoEvent F) (w : W)
      → elem id (billed w) ≡ true
      → elem id (billed (create event w).1) ≡ true

module _ {F E W : Type 0} (create : LagoEvent F → Exec E W Unit)
    (subscription_resolver : String → String) where
  -- An exporter that goes on whatever a call returns.
  abbrev pub emit_all : List (UsageEvent F) → W → W
  emit_all [] w = w
  emit_all (event ∷ events) w = emit_all events (emit create subscription_resolver event w).1

  still_billed :
      (billed : W → List String) (law : IsIdempotent create billed) (id : String)
      (events : List (UsageEvent F)) (w : W)
      → elem id (billed w) ≡ true
      → elem id (billed (emit_all events w)) ≡ true
  unfolding emit
  still_billed billed law id [] w h = h
  still_billed billed law id (event ∷ events) w h =
      still_billed billed law id events (create (to_lago create subscription_resolver event) w).1
        (law.none_forgotten id (to_lago create subscription_resolver event) w h)

-- An event that was accepted once and is sent again, after whatever else was sent and whether that was
-- accepted or not, bills nothing more.
pub emit_again :
    {F E W : Type 0} (create : LagoEvent F → Exec E W Unit)
    (subscription_resolver : String → String) (billed : W → List String)
    (law : IsIdempotent create billed) (event : UsageEvent F) (between : List (UsageEvent F))
    (w w' : W)
    → emit create subscription_resolver event w ≡ (ok tt, w')
    → (emit create subscription_resolver event (emit_all create subscription_resolver between w')).1
      ≡ emit_all create subscription_resolver between w'
unfolding emit to_lago
emit_again create subscription_resolver billed law event between w w' h =
    law.known_ignored (to_lago create subscription_resolver event) _ (
      still_billed create subscription_resolver billed law event.transaction_id between w'
        (law.accepted_known (to_lago create subscription_resolver event) w w' h))
