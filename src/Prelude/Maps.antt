-- ===== src/Prelude/Maps.antt =====
-- A storage map as a function of its key: a key that was never written reads as the default.
use Prim.Native.Nat.{ℕ}
use mathlib.Core.Path.{◌≡◌}
use mathlib.Core.Logic.{◌≢◌}
use native.Mathlib.Omega.{arith}
use nft101_rust.Prelude.Tests.{◌==◌, if◌then◌else◌}

abbrev pub update {ℓ} : {V : Type ℓ} → (ℕ → V) → ℕ → V → ℕ → V
update m k v j = if j == k then v else m j

module _ {ℓ} {V : Type ℓ} (m : ℕ → V) (k : ℕ) (v : V) where
  pub update_self : update m k v k ≡ v
  update_self = ground arith

  pub update_ne : (j : ℕ) → j ≢ k → update m k v j ≡ m j
  update_ne j ne = ground arith
