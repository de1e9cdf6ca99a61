-- ===== src/Runtime/Numbers.antt =====
-- The operations of U64F64 with the scale written out, for the numbers of runtime/src/lib.rs.
use nft101_rust.Prelude.{ℕ, ◌+◌, ◌*◌, ◌^◌, ◌≤◌, ◌<◌, ◌≡◌, sym, subst, some}
use nft101_rust.Frame.{Fixed, Checked}

module _ {F N : Type 0} (f : Fixed F N) where
  open f use {raw, scale, scale_eq, from_int, mul, div}

  -- A product and a quotient that are rounded down.
  abbrev pub IsProduct : N → N → N → Type 0
  IsProduct x y z = (raw z * 2 ^ 64 ≤ raw x * raw y) × (raw x * raw y < (raw z + 1) * 2 ^ 64)

  abbrev pub IsQuotient : N → N → N → Type 0
  IsQuotient x y z = (raw z * raw y ≤ raw x * 2 ^ 64) × (raw x * 2 ^ 64 < (raw z + 1) * raw y)

  mul-IsProduct :
      (x y z : N) → mul x y ≡ some z → raw x * raw y < (raw z + 1) * scale → IsProduct x y z
  mul-IsProduct x y z e high = (
    subst (λ s. raw z * s ≤ raw x * raw y) scale_eq (f.raw-mul x y z e),
    subst (λ s. raw x * raw y < (raw z + 1) * s) scale_eq high,
  )

  div-IsQuotient :
      (x y z : N) → div x y ≡ some z → raw x * scale < (raw z + 1) * raw y → IsQuotient x y z
  div-IsQuotient x y z e high = (
    subst (λ s. raw z * raw y ≤ raw x * s) scale_eq (f.raw-div x y z e),
    subst (λ s. raw x * s < (raw z + 1) * raw y) scale_eq high,
  )

  pub mul_numeral_lt : (x y z : N) → mul x y ≡ some z → raw z < 2 ^ 64 * 2 ^ 64
  mul_numeral_lt x y z e = subst (λ s. raw z < s * s) scale_eq (f.mul-lt x y z e)

  -- What fits is computed in every build.
  pub from_int_numeral_fits :
      (n : ℕ) → n < 2 ^ 64 → (x : N) × (from_int n ≡ some x) × (raw x ≡ n * 2 ^ 64)
  from_int_numeral_fits n lt =
      let (x, e, q) = f.from_int_fits n (subst (λ s. n < s) (sym scale_eq) lt) in
      (x, e, subst (λ s. raw x ≡ n * s) scale_eq q)

  pub mul_numeral_fits :
      (x y : N)
      → raw x * raw y < 2 ^ 64 * 2 ^ 64 * 2 ^ 64
      → (z : N) × (mul x y ≡ some z) × IsProduct x y z
  mul_numeral_fits x y lt =
      let (z, e, q) = f.mul_fits x y (subst (λ s. raw x * raw y < s * s * s) (sym scale_eq) lt) in
      (z, e, mul-IsProduct x y z e q)

  pub div_numeral_fits :
      (x y : N) → raw x < 2 ^ 64 * raw y → (z : N) × (div x y ≡ some z) × IsQuotient x y z
  div_numeral_fits x y lt =
      let (z, e, q) = f.div_fits x y (subst (λ s. raw x < s * raw y) (sym scale_eq) lt) in
      (z, e, div-IsQuotient x y z e q)

  -- With overflow checks, every result is the rounded one.
  module _ (k : Checked f) where
    pub from_int_numeral : (n : ℕ) (x : N) → from_int n ≡ some x → raw x ≡ n * 2 ^ 64
    from_int_numeral n x e = subst (λ s. raw x ≡ n * s) scale_eq (k.raw-from_int n x e)

    pub mul_numeral : (x y z : N) → mul x y ≡ some z → IsProduct x y z
    mul_numeral x y z e = mul-IsProduct x y z e (k.mul-lower x y z e)

    pub div_numeral : (x y z : N) → div x y ≡ some z → IsQuotient x y z
    div_numeral x y z e = div-IsQuotient x y z e (k.div-lower x y z e)
