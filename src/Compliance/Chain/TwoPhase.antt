-- ===== src/Compliance/Chain/TwoPhase.antt =====
-- `run_before` and `run_after`, the two halves of the chain on the canvas.
use mathlib.Core.List.{reverse, reverse-append, map-append, append_assoc, append-nil}
use mathlib.Core.Path.{fun_ext}
use ai_voice.Prelude.{
  false, String, ◌≡◌, refl, sym, ◌∙◌, ap, Option, none, some, List, [], ◌∷◌, ◌++◌, map, All, elem,
  arith, string_eq, str_eq_iff,
}
use ai_voice.Prelude.Dict.{Dict, lookup, insert, lookup-insert, lookup-insert_self}
use ai_voice.Prelude.Exec.{Result, ok, err, Exec, pure, continue, ◌>>=◌}
use ai_voice.Core.Types.{TenantContext}
use ai_voice.Compliance.Chain.Onion.{answered, handle-answered, continue-nil}
use ai_voice.Compliance.Chain.{
  Failure, Envelope, Interceptor, Progress, before_loop, after_loop, handle, tag_ran,
  interceptor_names, by_name, after_names, with_message, run_before, run_after,
}

module _ {S : Type 0} where
  -- No two interceptors of the chain have one name.
  abbrev pub DistinctNames : List (Interceptor S) → Type 0
  DistinctNames [] = Unit
  DistinctNames (i ∷ is) = (elem i.name (interceptor_names is) ≡ false) × DistinctNames is

  lookup-by_name_other :
      (n : String) (is : List (Interceptor S)) (d : Dict String (Interceptor S))
      → elem n (interceptor_names is) ≡ false
      → lookup n (by_name d is) ≡ lookup n d
  unfolding by_name interceptor_names
  lookup-by_name_other n [] d h = refl
  lookup-by_name_other n (i ∷ is) d h = ground (
    arith,
    lookup-by_name_other n is (insert i.name i d),
    lookup-insert i.name n i d,
    str_eq_iff n i.name,
    str_eq_iff i.name n,
  )

  -- `d` finds every one of these interceptors under its name.
  abbrev Finds : Dict String (Interceptor S) → List (Interceptor S) → Type 0
  Finds d = All (λ i. lookup i.name d ≡ some i)

  by_name-Finds :
      (is : List (Interceptor S)) (d : Dict String (Interceptor S))
      → DistinctNames is
      → Finds (by_name d is) is
  unfolding by_name
  by_name-Finds [] d h = tt
  by_name-Finds (i ∷ is) d (fresh, rest) = (
    lookup-by_name_other i.name is (insert i.name i d) fresh ∙ lookup-insert_self i.name i d,
    by_name-Finds is (insert i.name i d) rest,
  )

  Finds-append :
      (d : Dict String (Interceptor S)) (xs ys : List (Interceptor S))
      → Finds d xs
      → Finds d ys
      → Finds d (xs ++ ys)
  Finds-append d [] ys h k = k
  Finds-append d (x ∷ xs) ys h k = (h.0, Finds-append d xs ys h.1 k)

  Finds-reverse :
      (d : Dict String (Interceptor S)) (xs : List (Interceptor S))
      → Finds d xs
      → Finds d (reverse xs)
  Finds-reverse d [] h = tt
  Finds-reverse d (x ∷ xs) h =
      rw (reverse-append (x ∷ []) xs)
        (Finds-append d (reverse xs) (x ∷ []) (Finds-reverse d xs h.1) (h.0, tt))

  names-reverse :
      (xs : List (Interceptor S)) → reverse (interceptor_names xs) ≡ interceptor_names (reverse xs)
  unfolding interceptor_names
  names-reverse [] = refl
  names-reverse (x ∷ xs) = simp (
    reverse-append (x.name ∷ []) (map (λ i. i.name) xs),
    reverse-append (x ∷ []) xs,
    map-append,
    names-reverse xs,
  )

  -- Over the names of interceptors that `d` finds, the loop over names is the loop over them.
  after_names-after_loop :
      (t : TenantContext) (d : Dict String (Interceptor S)) (xs : List (Interceptor S))
      → Finds d xs
      → (e : Envelope) (s : S) → after_names t d (interceptor_names xs) e s ≡ after_loop t xs e s
  unfolding after_names after_loop interceptor_names
  after_names-after_loop t d [] h e s = refl
  after_names-after_loop t d (x ∷ xs) h e s =
      rw (h.0, after_names)
        (ap (λ f. continue (x.after t e s).0 f (x.after t e s).1)
          (fun_ext λ e'. fun_ext λ s'. after_names-after_loop t d xs h.1 e' s'))

  continue_snoc :
      (t : TenantContext) (is : List (Interceptor S)) (i : Interceptor S)
      → ((e : Envelope) (s : S)
          → after_loop t (is ++ i ∷ []) e s ≡ (after_loop t is e >>= i.after t) s)
      → (r : Result Failure Envelope) (s : S)
      → continue r (after_loop t (is ++ i ∷ [])) s
        ≡ continue (continue r (after_loop t is) s).0 (i.after t) (continue r (after_loop t is) s).1
  continue_snoc t is i ih (ok e) s = ih e s
  continue_snoc t is i ih (err f) s = refl

  step-Finds :
      (t : TenantContext) (d : Dict String (Interceptor S)) (i : Interceptor S)
      (is ran : List (Interceptor S)) (e : Envelope)
      → Finds d ran
      → ((e' : Envelope) (s' : S) → Finds d (before_loop t is (ran ++ i ∷ []) e' s').ran)
      → (r : Result Failure Envelope) (s : S)
      → Finds d
          (elim r as (λ _. Progress S) [
            | ok e' ↦ before_loop t is (ran ++ i ∷ []) e' s
            | err f ↦ record { ran = ran; envelope = e; state = s; stopped = some f }
          ]).ran
  step-Finds t d i is ran e k ih (ok e') s = ih e' s
  step-Finds t d i is ran e k ih (err f) s = k

  before_loop-Finds :
      (t : TenantContext) (d : Dict String (Interceptor S)) (is ran : List (Interceptor S))
      (e : Envelope) (s : S)
      → Finds d is
      → Finds d ran
      → Finds d (before_loop t is ran e s).ran
  unfolding before_loop
  before_loop-Finds t d [] ran e s h k = k
  before_loop-Finds t d (i ∷ is) ran e s h k =
      step-Finds t d i is ran e k
        (λ e' s'.
          before_loop-Finds t d is (ran ++ i ∷ []) e' s' h.1
            (Finds-append d ran (i ∷ []) k (h.0, tt)))
        (i.before t e s).0 (i.before t e s).1

  -- The stages whose `before` returned, and how the first half ends: with the envelope as they left
  -- it, or with what becomes of the exception of the first stage that raised.
  abbrev pub passed :
      TenantContext
      → List (Interceptor S)
      → Envelope
      → S
      → List (Interceptor S) × Result Failure Envelope × S
  passed t [] e s = ([], ok e, s)
  passed t (i ∷ is) e s =
      let (r, s') = i.before t e s in
      elim r [
        | ok e' ↦ let (ran, end, left) = passed t is e' s' in (i ∷ ran, end, left)
        | err f ↦ ([], answered f e, s')
      ]

  -- The `after` of each of these stages, the last stage first.
  abbrev pub backwards : TenantContext → List (Interceptor S) → Envelope → Exec Failure S Envelope
  backwards t [] e s = (ok e, s)
  backwards t (i ∷ is) e s = (backwards t is e >>= i.after t) s

  -- The envelope with the names of these stages in its metadata.
  abbrev pub tagged : List (Interceptor S) → Envelope → Envelope
  tagged ran e = record e {
    metadata = record (e.metadata) { ran_interceptors = some (map (λ i. i.name) ran) };
  }

  after_loop-snoc :
      (t : TenantContext) (is : List (Interceptor S)) (i : Interceptor S) (e : Envelope) (s : S)
      → after_loop t (is ++ i ∷ []) e s ≡ (after_loop t is e >>= i.after t) s
  unfolding after_loop
  after_loop-snoc t [] i e s = continue-nil t (i.after t e s).0 (i.after t e s).1
  after_loop-snoc t (j ∷ is) i e s =
      continue_snoc t is i (after_loop-snoc t is i) (j.after t e s).0 (j.after t e s).1

  after_loop-backwards :
      (t : TenantContext) (is : List (Interceptor S)) (e : Envelope) (s : S)
      → after_loop t (reverse is) e s ≡ backwards t is e s
  unfolding after_loop
  after_loop-backwards t [] e s = refl
  after_loop-backwards t (i ∷ is) e s = rw (reverse-append (i ∷ []) is) (
      after_loop-snoc t (reverse is) i e s
      ∙ ap (λ o. continue o.0 (i.after t) o.1) (after_loop-backwards t is e s))

  -- What the second half makes of the end of the first.
  abbrev closing :
      TenantContext
      → List (Interceptor S) × Result Failure Envelope × S
      → Result Failure Envelope × S
  closing t (ran, r, s) = continue r (λ e. backwards t ran (tagged ran e)) s

  -- The end of the loop over `before`, behind the stages that had run.
  abbrev ending : Progress S → List (Interceptor S) × Result Failure Envelope × S
  ending p = elim p.stopped as (λ _. List (Interceptor S) × Result Failure Envelope × S) [
    | none ↦ (p.ran, ok p.envelope, p.state)
    | some f ↦ (p.ran, answered f p.envelope, p.state)
  ]

  abbrev behind :
      List (Interceptor S)
      → List (Interceptor S) × Result Failure Envelope × S
      → List (Interceptor S) × Result Failure Envelope × S
  behind ran (more, end, left) = (ran ++ more, end, left)

  ending_step :
      (t : TenantContext) (i : Interceptor S) (is ran : List (Interceptor S)) (e : Envelope)
      → ((e' : Envelope) (s' : S)
          → ending (before_loop t is (ran ++ i ∷ []) e' s')
            ≡ behind (ran ++ i ∷ []) (passed t is e' s'))
      → (r : Result Failure Envelope) (s : S)
      → ending (elim r as (λ _. Progress S) [
        | ok e' ↦ before_loop t is (ran ++ i ∷ []) e' s
        | err f ↦ record { ran = ran; envelope = e; state = s; stopped = some f }
      ])
        ≡ behind ran (elim r as (λ _. List (Interceptor S) × Result Failure Envelope × S) [
          | ok e' ↦ let (more, end, left) = passed t is e' s in (i ∷ more, end, left)
          | err f ↦ ([], answered f e, s)
        ])
  ending_step t i is ran e ih (ok e') s =
      ih e' s
      ∙ ap (λ l. (l, (passed t is e' s).1, (passed t is e' s).2))
          (append_assoc ran (i ∷ []) (passed t is e' s).0)
  ending_step t i is ran e ih (err f) s = ap (λ l. (l, answered f e, s)) (sym (append-nil ran))

  ending-before_loop :
      (t : TenantContext) (is ran : List (Interceptor S)) (e : Envelope) (s : S)
      → ending (before_loop t is ran e s) ≡ behind ran (passed t is e s)
  unfolding before_loop
  ending-before_loop t [] ran e s = ap (λ l. (l, ok e, s)) (sym (append-nil ran))
  ending-before_loop t (i ∷ is) ran e s =
      ending_step t i is ran e (ending-before_loop t is (ran ++ i ∷ [])) (i.before t e s).0
        (i.before t e s).1

  module _ (chain : List (Interceptor S)) (t : TenantContext) (distinct : DistinctNames chain) where
    run_after-tag_ran :
        (ran : List (Interceptor S)) (e : Envelope) (s : S)
        → Finds (by_name [] chain) ran
        → run_after chain t (tag_ran ran e) s ≡ backwards t ran (tagged ran e) s
    unfolding run_after tag_ran with_message interceptor_names
    run_after-tag_ran ran e s h =
        rw (names-reverse ran) (
          after_names-after_loop t (by_name [] chain) (reverse ran)
            (Finds-reverse (by_name [] chain) ran h) (tag_ran ran e) s)
        ∙ after_loop-backwards t ran (tagged ran e) s

    answered_step :
        (ran : List (Interceptor S)) (r : Result Failure Envelope) (s : S)
        → Finds (by_name [] chain) ran
        → continue
            (continue r (λ e. pure (tag_ran ran e)) s).0
            (run_after chain t)
            (continue r (λ e. pure (tag_ran ran e)) s).1
          ≡ closing t (ran, r, s)
    answered_step ran (ok e) s h = run_after-tag_ran ran e s h
    answered_step ran (err f) s h = refl

    two_phase_step :
        (ran : List (Interceptor S)) (e : Envelope) (s : S) (stopped : Option Failure)
        → Finds (by_name [] chain) ran
        → ((λ s'. elim stopped as (λ _. Result Failure Envelope × S) [
          | none ↦ (ok (tag_ran ran e), s')
          | some f ↦ (handle f e >>= λ e'. pure (tag_ran ran e')) s'
        ])
              >>= run_after chain t)
            s
          ≡ closing t (ending (record { ran = ran; envelope = e; state = s; stopped = stopped }))
    two_phase_step ran e s none h = run_after-tag_ran ran e s h
    two_phase_step ran e s (some f) h =
        rw (handle-answered f e s) (answered_step ran (answered f e) s h)

    -- Where no two interceptors share a name, `run_before` and then `run_after` call `after` on the
    -- stages whose `before` returned and on no others, the last of them first and until one raises,
    -- with their names in the metadata; where a `before` raises a violation, these calls get the
    -- answer with the fixed refusal text, and where it raises any other exception, that one leaves
    -- and no `after` is called.
    pub run_after-run_before :
        (e : Envelope) (s : S)
        → (run_before chain t e >>= run_after chain t) s ≡ (
            let (ran, r, s') = passed t chain e s in
            continue r (λ e'. backwards t ran (tagged ran e')) s')
    unfolding run_before
    run_after-run_before e s =
        let p = before_loop t chain [] e s in
        two_phase_step p.ran p.envelope p.state p.stopped
          (before_loop-Finds t (by_name [] chain) chain [] e s (by_name-Finds chain [] distinct) tt)
        ∙ ap (closing t) (ending-before_loop t chain [] e s)
