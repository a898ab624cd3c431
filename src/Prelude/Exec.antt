-- ===== src/Prelude/Exec.antt =====
-- Methods that mutate an object and may raise. What was written before a raise stays written.
use mathlib.Core.Path.{◌≡◌, refl, ap}
use mathlib.Core.Logic.{◌⊎◌, inl, inr}
use native.Mathlib.Omega.{arith}

pub data Result {ℓ} (E A : Type ℓ) : Type ℓ where
  ok : A → Result E A
  err : E → Result E A

pub Result-cases {ℓ} :
    {E A : Type ℓ} (r : Result E A) → ((a : A) × (r ≡ ok a)) ⊎ ((e : E) × (r ≡ err e))
Result-cases (ok a) = inl (a, refl)
Result-cases (err e) = inr (e, refl)

abbrev pub Exec {ℓ} : Type ℓ → Type ℓ → Type ℓ → Type ℓ
Exec E S A = S → Result E A × S

module _ {ℓ} {E S A : Type ℓ} where
  abbrev pub pure : A → Exec E S A
  pure a s = (ok a, s)

  abbrev pub raise : E → Exec E S A
  raise e s = (err e, s)

  abbrev pub gets : (S → A) → Exec E S A
  gets f s = (ok (f s), s)

module _ {ℓ} {E S A B : Type ℓ} where
  abbrev pub continue : Result E A → (A → Exec E S B) → Exec E S B
  continue (ok a) f s = f a s
  continue (err e) f s = (err e, s)

  infixl 10 ◌>>=◌ ◌>>◌
  abbrev pub ◌>>=◌ : Exec E S A → (A → Exec E S B) → Exec E S B
  ◌>>=◌ m f s = let (r, s') = m s in continue r f s'

  abbrev pub ◌>>◌ : Exec E S A → Exec E S B → Exec E S B
  m >> n = m >>= λ _. n

-- One object's attribute within a larger state.
pub record Lens {ℓ} (S A : Type ℓ) : Type ℓ where
  pub get : S → A
  pub put : A → S → S

abbrev pub zoom {ℓ} : {E S A B : Type ℓ} → Lens S A → Exec E A B → Exec E S B
zoom l m s = let (r, a) = m (l.get s) in (r, l.put a s)

module _ {ℓ} {E S A B : Type ℓ} where
  -- What follows a method that returned.
  pub bind-ok :
      (m : Exec E S A) (f : A → Exec E S B) {s s' : S} {a : A}
      → m s ≡ (ok a, s')
      → (m >>= f) s ≡ f a s'
  bind-ok m f h = rw (h) refl

  continue-parts :
      (r : Result E A) (f : A → Exec E S B) (t : S) {s'' : S} {b : B}
      → continue r f t ≡ (ok b, s'')
      → (a : A) × (r ≡ ok a) × (f a t ≡ (ok b, s''))
  continue-parts (ok a) f t h = (a, refl, h)
  continue-parts (err e) f t h = absurd (ground arith)

  -- The state between the two parts of a sequence that returned.
  pub data Parts (m : Exec E S A) (f : A → Exec E S B) (s : S) (b : B) (s'' : S) : Type ℓ where
    parts : (a : A) (s' : S) → m s ≡ (ok a, s') → f a s' ≡ (ok b, s'') → Parts m f s b s''

  pub bind-Parts :
      (m : Exec E S A) (f : A → Exec E S B) {s s'' : S} {b : B}
      → (m >>= f) s ≡ (ok b, s'')
      → Parts m f s b s''
  bind-Parts m f {s = s} h =
      let (a, e, k) = continue-parts (m s).0 f (m s).1 h in
      parts a (m s).1 (ap (λ r. (r, (m s).1)) e) k
