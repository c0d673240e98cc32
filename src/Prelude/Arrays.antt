-- ===== src/Prelude/Arrays.antt =====
-- A C array as a function from its index; a write replaces one element.
use Prim.Native.Nat.{ℕ}
use mathlib.Core.Path.{◌≡◌}
use mathlib.Core.Logic.{◌≢◌}
use native.Mathlib.Omega.{arith}
use gcutil.Prelude.Tests.{◌==◌, if◌then◌else◌}

module _ {ℓ} {A : Type ℓ} where
  unfoldable pub write : (ℕ → A) → ℕ → A → ℕ → A
  write a i x j = if j == i then x else a j

  pub write_self : (a : ℕ → A) (i : ℕ) (x : A) → write a i x i ≡ x
  unfolding write
  write_self a i x = ground arith

  pub write_ne : (a : ℕ → A) (i : ℕ) (x : A) (j : ℕ) → j ≢ i → write a i x j ≡ a j
  unfolding write
  write_ne a i x j h = ground arith
