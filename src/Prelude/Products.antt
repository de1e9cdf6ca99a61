-- ===== src/Prelude/Products.antt =====
-- Inequalities between products, for the rounding of the fixed-point numbers.
use Prim.Native.Nat.{ℕ, ◌+◌, ◌-◌, ◌*◌, ◌≤◌, ◌<◌}
use mathlib.Core.Path.{◌≡◌}
use native.Mathlib.Nat.{mul-le-mul_right, le_of_mul-le-mul_left}
use native.Mathlib.Omega.{arith}

-- A product that is zero, one factor of which is not.
pub zero_of_mul : (a b : ℕ) → 0 < b → a * b ≤ 0 → a ≡ 0
zero_of_mul a b pos h = grind arith

-- A share, each step of which rounds down, is at most its exact value.
pub share_le :
    (a s sh u t sum p : ℕ)
    → 0 < s
    → a * s ≤ sh
    → sh * s ≤ u * t
    → u * sum ≤ p * s
    → a * s * sum ≤ p * t
share_le a s sh u t sum p pos h1 h2 h3 =
    let e1 = mul-le-mul_right (s * sum) h1 in
    let e2 = mul-le-mul_right sum h2 in
    let e3 = mul-le-mul_right t h3 in le_of_mul-le-mul_left {k = s} (omega (arith, e1, e2, e3)) pos

-- Two payments in a row.
pub payments_le :
    (f0 f1 f2 a k p t r : ℕ)
    → f0 ≤ f1 + a
    → a * k ≤ p * t
    → (f1 - f2) * k ≤ p * r
    → (f0 - f2) * k ≤ p * (t + r)
payments_le f0 f1 f2 a k p t r h1 h2 h3 =
    let step : f0 - f2 ≤ a + (f1 - f2) = omega arith in omega (arith, mul-le-mul_right k step)

-- All payments together, where the shares add up to the whole.
pub total_le :
    (d s sum p rate price : ℕ)
    → 0 < sum
    → 0 < s
    → d * (s * sum) ≤ p * sum
    → p * s ≤ rate * (price * s)
    → d * s ≤ rate * price
total_le d s sum p rate price ps pt h1 h2 =
    let e1 : d * s ≤ p = le_of_mul-le-mul_left {k = sum} (omega (arith, h1)) ps in
    let e2 : p ≤ rate * price = le_of_mul-le-mul_left {k = s} (omega (arith, h2)) pt in omega arith
