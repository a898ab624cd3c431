-- ===== src/Prelude/Floats.antt =====
-- What the program does with a `float`. No law of arithmetic is assumed of it.
use Prim.Native.Nat.{ℕ}
use mathlib.Core.Bool.{Bool}

pub record Floats {ℓ} (F : Type ℓ) : Type ℓ where
  pub of_nat : ℕ → F
  pub add : F → F → F
  pub sub : F → F → F
  pub mul : F → F → F
  pub div : F → F → F
  -- x >= y, x > y and x <= y
  pub geq : F → F → Bool
  pub gtr : F → F → Bool
  pub leq : F → F → Bool
