-- ===== src/Prelude/Rounding.antt =====
-- Bounds on quotients and products of scaled numbers, as the fixed-point operations round them.
use Prim.Native.Nat.{ℕ, zero, suc, ◌+◌, ◌*◌, ◌/◌, ◌≤◌, ◌<◌}
use mathlib.Core.Path.{◌≡◌, ap}
use native.Mathlib.Nat.{
  mul-le-mul_right, mul-le-mul_left, le_of_mul-le-mul_left, le_antisymm, le-div_iff_mul-le,
  div-lt_iff_lt-mul,
}
use native.Mathlib.Decide.{dec_lt, dec_le, ℕ_discrete}
use native.Mathlib.Omega.{arith}

-- A quotient by something that is not smaller is at most one.
pub quotient_le_one : (s x y q : ℕ) → 0 < y → q * y ≤ x * s → x ≤ y → q ≤ s
quotient_le_one s x y q pos h le =
    le_of_mul-le-mul_left {k = y} (omega (arith, h, mul-le-mul_right s le)) pos

-- A quotient is above a bound that is at least one below the dividend, if the divisor fits.
pub quotient_above : (s x y q b : ℕ) → x * s < (q + 1) * y → y < s * s → b + s < x → b < q * s
quotient_above s x y q b h fits small = elim (dec_lt b (q * s)) [
  | yes p ↦ p
  | no p ↦ absurd (
      omega (
        arith,
        h,
        mul-le-mul_left {m = y} {n = s * s} (q + 1) (omega (arith, fits)),
        mul-le-mul_right {m = (q + 1) * s} {n = x} s (omega (arith, p, small)),
        small,
      ))
]

-- A product with a number between one and the scale.
pub product_le : (s x r t : ℕ) → 0 < s → t * s ≤ x * r → r ≤ s → t ≤ x
product_le s x r t pos h le =
    le_of_mul-le-mul_left {k = s} (omega (arith, h, mul-le-mul_left x le)) pos

pub product_ge : (s x r t : ℕ) → x * r < (t + 1) * s → s ≤ x → r ≤ t
product_ge s x r t h le = elim (dec_le r t) [
  | yes p ↦ p
  | no p ↦ absurd (
      omega
        (arith, h, mul-le-mul_right r le, mul-le-mul_left {m = t + 1} {n = r} s (omega (arith, p))))
]

-- A product of a number that fits by one that is at most the scale fits.
pub product_fits : (s x r : ℕ) → 0 < s → x < s * s → r ≤ s → x * r < s * s * s
product_fits s x r pos fits le = omega (
  arith,
  mul-le-mul_left x le,
  mul-le-mul_right {m = x + 1} {n = s * s} s (omega (arith, fits)),
  pos,
)

pub positive_of_mul : (a s b : ℕ) → b < a * s → 0 < a
positive_of_mul zero s b h = omega (arith, h)
positive_of_mul (suc a) s b h = omega arith

pub le_of_scaled : (a b s : ℕ) → a * s < (b + 1) * s → a ≤ b
le_of_scaled a b s h = elim (dec_le a b) [
  | yes p ↦ p
  | no p ↦ absurd (omega (arith, h, mul-le-mul_right {m = b + 1} {n = a} s (omega (arith, p))))
]

-- A quotient by something larger is not larger.
pub quotient_antitone : (n y y' q q' : ℕ) → n < (q + 1) * y → q' * y' ≤ n → y ≤ y' → q' ≤ q
quotient_antitone n y y' q q' high low le = elim (dec_le q' q) [
  | yes p ↦ p
  | no p ↦ absurd (
      omega (
        arith,
        high,
        low,
        mul-le-mul_left q' le,
        mul-le-mul_right {m = q + 1} {n = q'} y (omega (arith, p)),
      ))
]

at_most_of_below : (m q : ℕ) → m < q + 1 → m ≤ q
at_most_of_below m q p = omega arith

-- The bounds that a rounded quotient keeps are met by no other number.
pub quotient_exact : (n y q : ℕ) → q * y ≤ n → n < (q + 1) * y → q ≡ n / y
quotient_exact n y q low high = elim (ℕ_discrete y 0) [
  | yes p ↦ absurd (omega (arith, high, ap (λ (m : ℕ). (q + 1) * m) p))
  | no p ↦
      le_antisymm ((le-div_iff_mul-le (omega (arith, p))).1 low)
        (at_most_of_below (n / y) q ((div-lt_iff_lt-mul (omega (arith, p))).1 high))
]
