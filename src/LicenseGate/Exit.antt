-- ===== src/LicenseGate/Exit.antt =====
-- The scan and the exit code of tools/license_gate/gate.py.
use ai_voice.Prelude.{
  ◌≡◌, refl, ◌≢◌, ◌↔◌, Bool, true, false, not, ◌||◌, String, List, [], ◌∷◌, any, keep, elem, arith,
  string_eq, Bool-cases, inl, inr, Option,
}
use ai_voice.LicenseGate.{
  Unicode, PackageVerdict, LicensePolicy, LoadedPolicy, load_policy, Distribution, name_of,
  package_verdict, scan_loop, place_verdict, sort_verdicts, scan_environment, is_denied, is_unknown,
  denied, unclassified, is_empty, exit_code, gate,
}

-- The distribution is the first one of its name.
pub data IsFirst (dist : Distribution) : List Distribution → Type 0 where
  here : {dists : List Distribution} → IsFirst dist (dist ∷ dists)
  later :
      {other : Distribution} {dists : List Distribution}
      → name_of other ≢ name_of dist
      → IsFirst dist dists
      → IsFirst dist (other ∷ dists)

is_empty-keep : {A : Type 0} (p : A → Bool) (xs : List A) → is_empty (keep p xs) ≡ not (any p xs)
is_empty-keep p [] = refl
is_empty-keep p (x ∷ xs) = ground (arith, is_empty-keep p xs)

elem_differs : (a b : String) (xs : List String) → elem a xs ≡ true → elem b xs ≡ false → a ≢ b
elem_differs a b xs h k e = ground (arith, rw (e) at h)

elem-cons :
    (a b : String) (xs : List String) → elem b (a ∷ xs) ≡ false → (a ≢ b) × (elem b xs ≡ false)
elem-cons a b xs h = (λ e. ground (arith, string_eq.beq_iff b a), ground arith)

not_elem-cons :
    (a b : String) (xs : List String) → a ≢ b → elem b xs ≡ false → elem b (a ∷ xs) ≡ false
not_elem-cons a b xs h k = ground (arith, string_eq.beq_iff b a)

or_false : (a b : Bool) → (a || b) ≡ false → (a ≡ false) × (b ≡ false)
or_false a b h = ground arith

module _ (u : Unicode) where
  any-place_verdict :
      (p : PackageVerdict → Bool) (v : PackageVerdict) (vs : List PackageVerdict)
      → any p (place_verdict u v vs) ≡ (p v || any p vs)
  unfolding place_verdict
  any-place_verdict p v [] = refl
  any-place_verdict p v (w ∷ ws) = ground (arith, any-place_verdict p v ws)

  any-sort_verdicts :
      (p : PackageVerdict → Bool) (vs : List PackageVerdict) → any p (sort_verdicts u vs) ≡ any p vs
  unfolding sort_verdicts
  any-sort_verdicts p [] = refl
  any-sort_verdicts p (v ∷ vs) =
      rw (any-place_verdict p v (sort_verdicts u vs), any-sort_verdicts p vs) refl

  module _ (policy : LicensePolicy) (p : PackageVerdict → Bool) where
    scan_loop-misses :
        (dist : Distribution) (seen : List String) (dists : List Distribution)
        → any p (scan_loop u policy seen dists) ≡ false
        → elem (name_of dist) seen ≡ false
        → IsFirst dist dists
        → p (package_verdict u policy dist) ≡ false
    unfolding scan_loop
    scan_loop-misses dist seen (d ∷ ds) h k here = ground arith
    scan_loop-misses dist seen (d ∷ ds) h k (later other first) =
        elim (Bool-cases (elem (name_of d) seen)) [
          | inl e ↦ scan_loop-misses dist seen ds (rw (e) at h) k first
          | inr e ↦
              scan_loop-misses dist (name_of d ∷ seen) ds
                (or_false (p (package_verdict u policy d)) _ (rw (e) at h)).1
                (not_elem-cons (name_of d) (name_of dist) seen other k) first
        ]
    scan_loop-misses dist seen [] h k first = elim first [ ]

    scan_loop-covers :
        (seen : List String) (dists : List Distribution)
        → ((dist : Distribution)
            → elem (name_of dist) seen ≡ false
            → IsFirst dist dists
            → p (package_verdict u policy dist) ≡ false)
        → any p (scan_loop u policy seen dists) ≡ false
    unfolding scan_loop
    scan_loop-covers seen [] h = refl
    scan_loop-covers seen (d ∷ ds) h = elim (Bool-cases (elem (name_of d) seen)) [
      | inl e ↦ rw (e) (
          scan_loop-covers seen ds λ dist k first.
            h dist k (later (elem_differs (name_of d) (name_of dist) seen e k) first))
      | inr e ↦ rw (e) (
          rw (h d e here) (
            scan_loop-covers (name_of d ∷ seen) ds λ dist k first.
              let (differs, unseen) = elem-cons (name_of d) (name_of dist) seen k in
              h dist unseen (later differs first)))
    ]

    -- A verdict that no scanned distribution has is one that no first distribution of its name has.
    any-scan_environment :
        (dists : List Distribution)
        → (any p (scan_environment u policy dists) ≡ false)
          ↔ ((dist : Distribution) → IsFirst dist dists → p (package_verdict u policy dist) ≡ false)
    unfolding scan_environment
    any-scan_environment dists = rw (any-sort_verdicts p (scan_loop u policy [] dists)) (
      λ h dist first. scan_loop-misses dist [] dists h refl first,
      λ h. scan_loop-covers [] dists λ dist k first. h dist first,
    )

exit_code_iff :
    (strict : Bool) (verdicts : List PackageVerdict)
    → (exit_code strict verdicts ≡ 0)
      ↔ ((any is_denied verdicts ≡ false) × (strict ≡ true → any is_unknown verdicts ≡ false))
unfolding exit_code denied unclassified
exit_code_iff strict verdicts =
    ground (arith, is_empty-keep is_denied verdicts, is_empty-keep is_unknown verdicts)

-- The gate exits with 0 exactly where no package is denied and, if it is strict, none is unknown; a
-- package is judged by the first distribution of its name.
pub gate_iff :
    (u : Unicode) (strict : Bool) (loaded : Option LoadedPolicy) (dists : List Distribution)
    → (gate u strict loaded dists ≡ 0) ↔ (
        ((dist : Distribution)
          → IsFirst dist dists
          → is_denied (package_verdict u (load_policy loaded) dist) ≡ false)
        × (strict ≡ true
            → (dist : Distribution) → IsFirst dist dists
            → is_unknown (package_verdict u (load_policy loaded) dist) ≡ false))
unfolding gate
gate_iff u strict loaded dists =
    let policy = load_policy loaded in
    let verdicts = scan_environment u policy dists in
    let none_denied = any-scan_environment u policy is_denied dists in
    let none_unknown = any-scan_environment u policy is_unknown dists in
    let code = exit_code_iff strict verdicts in
    (
      λ h. (none_denied.0 (code.0 h).0, λ s. none_unknown.0 ((code.0 h).1 s)),
      λ h. code.1 (none_denied.1 h.0, λ s. none_unknown.1 (h.1 s)),
    )
