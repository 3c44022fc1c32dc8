-- ===== src/Prelude/Same.antt =====
-- Equality of the finite types that name resources: an interface, filled by a numbering.
use Prim.Native.Nat.{ℕ}
use mathlib.Core.Path.{◌≡◌}
use mathlib.Core.Bool.{Bool}
use kernel_driver_lab.Prelude.Tests.{◌==◌}

-- A type whose values are told apart by a number.
pub record Tagged {ℓ} (A : Type ℓ) : Type ℓ where
  pub tag : A → ℕ
  pub tag-injective : (a b : A) → tag a ≡ tag b → a ≡ b

abbrev pub same {ℓ} : {A : Type ℓ} ⦃t : Tagged A⦄ → A → A → Bool
same ⦃t⦄ a b = t.tag a == t.tag b
