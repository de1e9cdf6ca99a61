-- ===== src/Prelude/Sums.antt =====
-- Sums over the keys below a bound, and how a write at one key changes them.
use Prim.Native.Nat.{ℕ, zero, suc, ◌+◌, ◌≤◌, ◌<◌}
use mathlib.Core.Path.{◌≡◌, refl}
use mathlib.Core.Logic.{◌≢◌}
use native.Mathlib.Numerals.{add-one}
use native.Mathlib.Omega.{arith}
use native.Mathlib.Decide.{ℕ_discrete}

pub sum_below : ℕ → (ℕ → ℕ) → ℕ
sum_below zero f = 0
sum_below (suc n) f = f n + sum_below n f

-- Two functions that agree below the bound have the same sum.
pub sum_below-ext :
    (n : ℕ) (f g : ℕ → ℕ) → ((j : ℕ) → j < n → f j ≡ g j) → sum_below n f ≡ sum_below n g
unfolding sum_below
sum_below-ext zero f g e = refl
sum_below-ext (suc n) f g e =
    omega (arith, e n (omega arith), sum_below-ext n f g (λ j h. e j (omega arith)))

nothing_below : (n : ℕ) → sum_below n (λ (j : ℕ). 0) ≡ 0
unfolding sum_below
nothing_below zero = refl
nothing_below (suc n) = omega (arith, nothing_below n)

-- A change at one key below the bound changes the sum by that much.
pub sum_below-change :
    (n k : ℕ) (f g : ℕ → ℕ)
    → k < n
    → ((j : ℕ) → j ≢ k → f j ≡ g j)
    → sum_below n f + g k ≡ sum_below n g + f k
unfolding sum_below
sum_below-change zero k f g h e = absurd (omega arith)
sum_below-change (suc n) k f g h e = elim (ℕ_discrete n k) [
  | yes p ↦ rw p (omega (arith, sum_below-ext k f g (λ j lt. e j (omega arith))))
  | no p ↦ omega (arith, e n p, sum_below-change n k f g (omega arith) e)
]

pub sum_below-ge : (n k : ℕ) (f : ℕ → ℕ) → k < n → f k ≤ sum_below n f
unfolding sum_below
sum_below-ge zero k f h = absurd (omega arith)
sum_below-ge (suc n) k f h = elim (ℕ_discrete n k) [
  | yes p ↦ rw p (omega arith)
  | no p ↦ omega (arith, sum_below-ge n k f (omega arith))
]

pub sum_below-add_one : (n : ℕ) (f : ℕ → ℕ) → sum_below (n + 1) f ≡ f n + sum_below n f
unfolding sum_below
sum_below-add_one n f = rw add-one

pub sum_below-zero : (f : ℕ → ℕ) → sum_below 0 f ≡ 0
unfolding sum_below
sum_below-zero f = refl

pub sum_below-add :
    (n : ℕ) (f g : ℕ → ℕ) → sum_below n (λ j. f j + g j) ≡ sum_below n f + sum_below n g
unfolding sum_below
sum_below-add zero f g = refl
sum_below-add (suc n) f g = omega (arith, sum_below-add n f g)

-- A function that is zero but at one key.
pub sum_below-single :
    (n k : ℕ) (f : ℕ → ℕ) → k < n → ((j : ℕ) → j ≢ k → f j ≡ 0) → sum_below n f ≡ f k
sum_below-single n k f lt e =
    omega (arith, sum_below-change n k f (λ (j : ℕ). 0) lt e, nothing_below n)
