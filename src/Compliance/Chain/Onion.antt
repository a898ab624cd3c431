-- ===== src/Compliance/Chain/Onion.antt =====
-- `ComplianceChain.wrap` against nested calls, and what a refusal leaves out.
use mathlib.Core.List.{reverse, reverse-append}
use ai_voice.Prelude.{
  ◌≡◌, ◌≢◌, refl, ap, ◌∙◌, Option-cases, inl, inr, none, some, List, [], ◌∷◌, ◌++◌,
}
use ai_voice.Prelude.Exec.{Result, ok, err, Exec, continue, ◌>>=◌}
use ai_voice.Core.Types.{TenantContext, Role, DataClass}
use ai_voice.Compliance.Chain.{
  Failure, violation, refused, error, refuse, with_message, refusal_message, Envelope, Interceptor,
  InnerCall, Progress, before_loop, after_loop, handle, settle, try_inner, wrap,
}

-- What becomes of an exception: a violation is an answer with the fixed text, which names the stage
-- and leaves its reason out; any other exception stays one.
abbrev pub answered : Failure → Envelope → Result Failure Envelope
answered (violation interceptor reason) e = ok (record {
  tenant = e.tenant;
  message = record {
    role = Role.assistant;
    content = "I'm not able to help with that request.";
    name = none;
    data_class = DataClass.personal;
    metadata = ("compliance_violation", interceptor) ∷ [];
  };
  metadata = record (e.metadata) { violated = some interceptor };
})
answered (refused refusal_text) e = err (refused refusal_text)
answered (error text) e = err (error text)

abbrev pub settled : Result Failure Envelope → Envelope → Result Failure Envelope
settled (ok e') e = ok e'
settled (err f) e = answered f e

module _ {S : Type 0} where
  pub handle-answered : (f : Failure) (e : Envelope) (s : S) → handle f e s ≡ (answered f e, s)
  unfolding handle refuse with_message refusal_message
  handle-answered (violation interceptor reason) e s = refl
  handle-answered (refused refusal_text) e s = refl
  handle-answered (error text) e s = refl

  settle-settled :
      (r : Result Failure Envelope) (e : Envelope) (s : S) → settle r e s ≡ (settled r e, s)
  settle-settled (ok e') e s = refl
  settle-settled (err f) e s = handle-answered f e s

  pub continue-nil :
      (t : TenantContext) (r : Result Failure Envelope) (s : S)
      → continue r (after_loop t []) s ≡ (r, s)
  unfolding after_loop
  continue-nil t (ok e) s = refl
  continue-nil t (err f) s = refl

module _ {S : Type 0} (t : TenantContext) (inner : InnerCall S) where
  -- Nested calls: a stage that lets the envelope through calls the rest and then its own `after`;
  -- one that raises is answered where it stands.
  abbrev pub onion : List (Interceptor S) → Envelope → Exec Failure S Envelope
  onion [] e s = let (r, s') = inner t e s in (settled r e, s')
  onion (i ∷ is) e s =
      let (r, s') = i.before t e s in
      elim r [ ok e' ↦ (onion is e' >>= i.after t) s' | err f ↦ (answered f e, s') ]

  abbrev unwind : Progress S → Result Failure Envelope × S
  unwind p = let (r, s') = try_inner t inner p in continue r (after_loop t (reverse p.ran)) s'

  reverse_snoc :
      (ran : List (Interceptor S)) (i : Interceptor S) → reverse (ran ++ i ∷ []) ≡ i ∷ reverse ran
  reverse_snoc ran i = reverse-append ran (i ∷ [])

  after-onion :
      (i : Interceptor S) (rest : List (Interceptor S)) (r : Result Failure Envelope) (s : S)
      → continue r (after_loop t (i ∷ rest)) s
        ≡ continue (continue r (i.after t) s).0 (after_loop t rest) (continue r (i.after t) s).1
  unfolding after_loop
  after-onion i rest (ok e) s = refl
  after-onion i rest (err f) s = refl

  unwind_step :
      (i : Interceptor S) (is ran : List (Interceptor S)) (e : Envelope)
      → ((e' : Envelope) (s' : S)
          → unwind (before_loop t is (ran ++ i ∷ []) e' s')
            ≡ (onion is e' >>= after_loop t (reverse (ran ++ i ∷ []))) s')
      → (r : Result Failure Envelope) (s : S)
      → unwind (elim r as (λ _. Progress S) [
        | ok e' ↦ before_loop t is (ran ++ i ∷ []) e' s
        | err f ↦ record { ran = ran; envelope = e; state = s; stopped = some f }
      ])
        ≡ ((λ s'. elim r as (λ _. Result Failure Envelope × S) [
          | ok e' ↦ (onion is e' >>= i.after t) s'
          | err f ↦ (answered f e, s')
        ])
              >>= after_loop t (reverse ran))
            s
  unfolding try_inner
  unwind_step i is ran e ih (ok e') s =
      ih e' s
      ∙ rw (reverse_snoc ran i) (after-onion i (reverse ran) (onion is e' s).0 (onion is e' s).1)
  unwind_step i is ran e ih (err f) s =
      ap (λ o. continue o.0 (after_loop t (reverse ran)) o.1) (handle-answered f e s)

  unwind-before_loop :
      (is ran : List (Interceptor S)) (e : Envelope) (s : S)
      → unwind (before_loop t is ran e s) ≡ (onion is e >>= after_loop t (reverse ran)) s
  unfolding before_loop try_inner
  unwind-before_loop [] ran e s =
      ap (λ o. continue o.0 (after_loop t (reverse ran)) o.1)
        (settle-settled (inner t e s).0 e (inner t e s).1)
  unwind-before_loop (i ∷ is) ran e s =
      unwind_step i is ran e (unwind-before_loop is (ran ++ i ∷ [])) (i.before t e s).0
        (i.before t e s).1

  -- The loop of `wrap` is the nested calls, whatever the stages and the inner call do. A violation
  -- of a `before` or of the inner call is answered where it is raised, by an assistant message with
  -- the fixed refusal text, and the metadata names the stage. Every stage whose `before` returned
  -- gets its `after` on the way out, in reverse order, until an exception leaves: any other one of
  -- a `before` or of the inner call, or any one of an `after`, ends the request as it is.
  pub wrap-onion :
      (chain : List (Interceptor S)) (e : Envelope) (s : S)
      → wrap chain t e inner s ≡ onion chain e s
  unfolding wrap
  wrap-onion chain e s =
      unwind-before_loop chain [] e s ∙ continue-nil t (onion chain e s).0 (onion chain e s).1

  -- When a stage stops the request, the answer and the state do not depend on the inner call.
  pub wrap_skips_inner :
      (chain : List (Interceptor S)) (e : Envelope) (s : S) (other : InnerCall S)
      → (before_loop t chain [] e s).stopped ≢ none
      → wrap chain t e inner s ≡ wrap chain t e other s
  unfolding wrap try_inner
  wrap_skips_inner chain e s other h = elim (Option-cases (before_loop t chain [] e s).stopped) [
    | inl none_raised ↦ absurd (h none_raised)
    | inr (f, raised) ↦ rw (raised, try_inner)
  ]
