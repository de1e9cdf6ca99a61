-- ===== src/Nft/Tests/Numbers.antt =====
-- Fixed-point numbers for tests: 64 bits before the point and 64 after it, with overflow checks and without.
use native.Mathlib.Nat.{
  div-mul-le_self, div-lt_iff_lt-mul, lt-mul-div-succ, mul-le-mul_right, le_trans,
}
use Prim.Native.Nat.{◌%◌}
use mathlib.Core.Option.{some-injective}
use nft101_rust.Prelude.{
  ℕ, ◌+◌, ◌*◌, ◌/◌, ◌^◌, ◌≤◌, ◌<◌, ◌≡◌, ◌≢◌, Option, some, none, ltb, ◌==◌, if◌then◌else◌, refl, ap,
  arith,
}
use nft101_rust.Frame.{Fixed, Checked}

abbrev pub one_num : ℕ
one_num = 2 ^ 64

abbrev pub floored : ℕ → Option ℕ
floored a = some (a / one_num)

pub floored_lem : (x n : ℕ) → floored x ≡ some n → n * one_num ≤ x
floored_lem x n e = ground (arith, div-mul-le_self x one_num)

pub floored_lower : (x n : ℕ) → floored x ≡ some n → x < (n + 1) * one_num
floored_lower x n e = rw (← some-injective _ _ e) (omega arith)

pub floored_fits : (x : ℕ) → (n : ℕ) × (floored x ≡ some n)
floored_fits x = (x / one_num, refl)

abbrev pub same_raw : ℕ → ℕ
same_raw n = n

pub scale_lem : 0 < one_num
scale_lem = omega arith

pub ltb_lem : (x y : ℕ) → ltb x y ≡ ltb x y
ltb_lem x y = refl

-- How a build stores a result: what fits stays, and nothing grows.
pub record Storing (store : ℕ → Option ℕ) : Type 0 where
  pub stored_le : (n x : ℕ) → store n ≡ some x → x ≤ n
  pub stored_lt : (n x : ℕ) → store n ≡ some x → x < 2 ^ 128
  pub stored : (n : ℕ) → n < 2 ^ 128 → store n ≡ some n

module _ (store : ℕ → Option ℕ) where
  abbrev pub whole : ℕ → Option ℕ
  whole n = store (n * one_num)

  abbrev pub plus : ℕ → ℕ → Option ℕ
  plus a b = store (a + b)

  abbrev pub times : ℕ → ℕ → Option ℕ
  times a b = store (a * b / one_num)

  abbrev pub over : ℕ → ℕ → Option ℕ
  over a b = if b == 0 then none else store (a * one_num / b)

  over_lem : (x y z : ℕ) → over x y ≡ some z → (store (x * one_num / y) ≡ some z) × (y ≢ 0)
  over_lem x y z e = ground arith

  pub over_zero : (x y : ℕ) → y ≡ 0 → over x y ≡ none
  over_zero x y e = ground arith

  module _ (s : Storing store) where
    open s use {stored_le, stored_lt, stored}

    pub whole_le : (n x : ℕ) → whole n ≡ some x → x ≤ n * one_num
    whole_le n x e = stored_le (n * one_num) x e

    pub times_le : (x y z : ℕ) → times x y ≡ some z → z * one_num ≤ x * y
    times_le x y z e =
        le_trans (mul-le-mul_right one_num (stored_le (x * y / one_num) z e))
          (div-mul-le_self (x * y) one_num)

    pub over_le : (x y z : ℕ) → over x y ≡ some z → z * y ≤ x * one_num
    over_le x y z e =
        le_trans (mul-le-mul_right y (stored_le (x * one_num / y) z (over_lem x y z e).0))
          (div-mul-le_self (x * one_num) y)

    pub times_lt : (x y z : ℕ) → times x y ≡ some z → z < one_num * one_num
    times_lt x y z e = omega (arith, stored_lt (x * y / one_num) z e)

    pub whole_fits : (n : ℕ) → n < one_num → (x : ℕ) × (whole n ≡ some x) × (x ≡ n * one_num)
    whole_fits n lt = (n * one_num, stored (n * one_num) (omega (arith, lt)), refl)

    pub plus_fits :
        (x y : ℕ) → x + y < one_num * one_num → (z : ℕ) × (plus x y ≡ some z) × (z ≡ x + y)
    plus_fits x y lt = (x + y, stored (x + y) (omega (arith, lt)), refl)

    pub times_fits :
        (x y : ℕ)
        → x * y < one_num * one_num * one_num
        → (z : ℕ) × (times x y ≡ some z) × (x * y < (z + 1) * one_num)
    times_fits x y lt = (x * y / one_num, stored (x * y / one_num) (omega (arith, lt)), omega arith)

    over_small : (x y : ℕ) → x < one_num * y → (y ≢ 0) × (x * one_num / y < one_num * one_num)
    over_small x y e = (
      λ z. omega (arith, ap (λ (n : ℕ). one_num * n) z),
      (div-lt_iff_lt-mul {k = y} (omega (arith, e))).1 (omega (arith, e)),
    )

    pub over_fits :
        (x y : ℕ) → x < one_num * y → (z : ℕ) × (over x y ≡ some z) × (x * one_num < (z + 1) * y)
    over_fits x y lt =
        let (ne, small) = over_small x y lt in
        (
          x * one_num / y,
          ground (arith, ne, stored (x * one_num / y) (omega (arith, small))),
          omega (arith, lt-mul-div-succ (x * one_num) {b = y} (omega (arith, ne))),
        )

    abbrev pub numbers : Fixed ℕ ℕ
    numbers = record {
      raw = same_raw;
      scale = one_num;
      scale_eq = refl;
      scale_positive = scale_lem;
      from_float = store;
      from_int = whole;
      add = plus;
      mul = times;
      div = over;
      less = ltb;
      floor = floored;
      from_int-le = whole_le;
      raw-mul = times_le;
      raw-div = over_le;
      div_zero = over_zero;
      less-raw = ltb_lem;
      raw-floor = floored_lem;
      floor-lower = floored_lower;
      mul-lt = times_lt;
      from_int_fits = whole_fits;
      add_fits = plus_fits;
      mul_fits = times_fits;
      div_fits = over_fits;
      floor_fits = floored_fits;
    }

-- With checks, and without.
abbrev pub fits : ℕ → Option ℕ
fits n = if ltb n (2 ^ 128) then some n else none

abbrev pub wraps : ℕ → Option ℕ
wraps n = some (n % 2 ^ 128)

fits_lem : (n x : ℕ) → fits n ≡ some x → x ≡ n
fits_lem n x e = ground arith

pub fits-Storing : Storing fits
fits-Storing = record {
  stored_le = λ n x e. omega (arith, fits_lem n x e);
  stored_lt = λ n x e. ground arith;
  stored = λ n lt. ground arith;
}

pub wraps-Storing : Storing wraps
wraps-Storing = record {
  stored_le = λ n x e. rw (← some-injective _ _ e) (omega arith);
  stored_lt = λ n x e. rw (← some-injective _ _ e) (omega arith);
  stored = λ n lt. ap some (omega (arith, lt));
}

abbrev pub checked_numbers : Fixed ℕ ℕ
checked_numbers = numbers fits fits-Storing

abbrev pub wrapped_numbers : Fixed ℕ ℕ
wrapped_numbers = numbers wraps wraps-Storing

pub checked : Checked checked_numbers
checked = record {
  raw-from_int = λ n x e. fits_lem (n * one_num) x e;
  raw-add = λ x y z e. fits_lem (x + y) z e;
  mul-lower = λ x y z e. rw (fits_lem (x * y / one_num) z e) (omega arith);
  div-lower = λ x y z e.
      let (made, ne) = over_lem fits x y z e in
      rw (fits_lem (x * one_num / y) z made)
        (omega (arith, lt-mul-div-succ (x * one_num) {b = y} (omega (arith, ne))));
}
