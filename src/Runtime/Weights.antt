-- ===== src/Runtime/Weights.antt =====
-- What the votes weigh in `Module::algorithm` under the constants of runtime/src/lib.rs.
use nft101_rust.Prelude.{ℕ, ◌+◌, ◌*◌, ◌^◌, ◌≤◌, ◌<◌, ◌≡◌, sym, subst, some, arith}
use native.Mathlib.Nat.{mul-le-mul_right, mul-le-mul_left, le_of_mul-le-mul_left}
use native.Mathlib.Decide.{dec_le}
use nft101_rust.Prelude.Partial.{bind-some}
use nft101_rust.Frame.{Host}
use nft101_rust.Nft.Types.{Vote}
use nft101_rust.Nft.Payout.{vote_weight}
use nft101_rust.Nft.Payout.Within.{Weighs}
use nft101_rust.Runtime.{cents}
use nft101_rust.Runtime.Numbers.{mul_numeral_fits, div_numeral_fits}
use nft101_rust.Runtime.Prices.{fifth_raw}
use nft101_rust.Runtime.Fits.{blocks_fit, amount_fits, days_fit}

-- The weight of an amount over part of the days is between one and the amount.
weight_bounds :
    (a vd d x : ℕ)
    → cents ≤ a
    → a ≤ 9 * 10 ^ 18
    → vd ≤ d
    → d ≤ 2 * 2 ^ 64
    → 2 ^ 64 < (vd + 1) * 14400
    → x * d ≤ a * vd * 2 ^ 64
    → a * vd * 2 ^ 64 < (x + 1) * d
    → (2 ^ 64 ≤ x) × (x ≤ a * 2 ^ 64)
weight_bounds a vd d x a1 a2 vd1 d1 vd2 le ge = (
  elim (dec_le (2 ^ 64) x) [
    | yes p ↦ p
    | no p ↦ absurd (
        omega (
          arith,
          ge,
          mul-le-mul_right {m = x + 1} {n = 2 ^ 64} d (omega (arith, p)),
          mul-le-mul_right vd a1,
          vd2,
          d1,
        ))
  ],
  le_of_mul-le-mul_left {k = d} (omega (arith, le, mul-le-mul_left a vd1))
      (omega (arith, vd1, vd2)),
)

module _ {O L F N : Type 0} (h : Host O L F N) (rate : F) (default_account : ℕ) (r : N)
    (rate_eq : h.fixed.from_float rate ≡ some r) (r_raw : h.fixed.raw r ≡ fifth_raw)
    (fix_rate blocks day stock : N) (bound : ℕ) where
  open h.fixed use {raw, scale, scale_eq}

  vote_weight_of :
      (v : Vote) (amount left vote_day weighted weight : N)
      → h.fixed.from_int (h.balance_to_u128 v.amount) ≡ some amount
      → h.fixed.from_int (h.block_to_u128 v.keep_block_num) ≡ some left
      → h.fixed.div left blocks ≡ some vote_day
      → h.fixed.mul amount vote_day ≡ some weighted
      → h.fixed.div weighted day ≡ some weight
      → vote_weight h blocks day v ≡ some weight
  unfolding vote_weight
  vote_weight_of v amount left vote_day weighted weight e1 e2 e3 e4 e5 =
      bind-some _ e1 (bind-some _ e2 (bind-some _ e3 (bind-some _ e4 e5)))

  pub vote-Weighs :
      (v : Vote) (keep : ℕ)
      → raw blocks ≡ 14400 * 2 ^ 64
      → keep ≤ 28800
      → keep * 2 ^ 64 < (raw day + 1) * 14400
      → raw day * 14400 ≤ keep * 2 ^ 64
      → cents ≤ v.amount
      → v.amount ≤ 9 * 10 ^ 18
      → 1 ≤ v.keep_block_num
      → v.keep_block_num ≤ keep
      → Weighs h fix_rate blocks day stock bound v
  vote-Weighs v keep blocks_raw k1 day_ge day_le a1 a2 k2 k3 =
      let (amount, e1, amount_raw) =
        amount_fits h rate default_account r rate_eq r_raw v.amount (omega (arith, a2)) in
      let (left, e2, left_raw) =
        blocks_fit h rate default_account r rate_eq r_raw v.keep_block_num
          (omega (arith, k1, k3)) in
      let (vote_day, e3, _, vd_le, vd_ge) =
        days_fit h rate default_account r rate_eq r_raw left blocks v.keep_block_num left_raw
          blocks_raw (omega (arith, k1, k3)) in
      let vd_day : raw vote_day ≤ raw day = omega (arith, vd_le, day_ge, k3) in
      let product : raw amount * raw vote_day ≡ v.amount * raw vote_day * 2 ^ 64 =
        rw amount_raw (omega arith) in
      let size =
        mul-le-mul_left {m = raw vote_day} {n = 2 * 2 ^ 64} v.amount
          (omega (arith, vd_day, day_le, k1)) in
      let (weighted, e4, w_raw) =
        mul_numeral_fits h.fixed amount vote_day (omega (arith, product, size, a2)) in
      let w_eq : raw weighted ≡ v.amount * raw vote_day = omega (arith, w_raw, product) in
      let (weight, e5, x_raw) = div_numeral_fits h.fixed weighted day (
        omega (
          arith,
          w_eq,
          mul-le-mul_left v.amount vd_day,
          mul-le-mul_right {m = v.amount + 1} {n = 2 ^ 64} (raw day) (omega (arith, a2)),
          day_ge,
          k2,
          k3,
        )) in
      let bounds =
        weight_bounds v.amount (raw vote_day) (raw day) (raw weight) a1 a2 vd_day
          (omega (arith, day_le, k1)) (omega (arith, vd_ge, k2)) (omega (arith, x_raw, w_eq))
          (omega (arith, x_raw, w_eq)) in
      record {
        weight = weight;
        weight_eq = vote_weight_of v amount left vote_day weighted weight e1 e2 e3 e4 e5;
        weight_ge = subst (λ (s : ℕ). s ≤ raw weight) (sym scale_eq) bounds.0;
        weight_le = subst (λ (s : ℕ). raw weight ≤ v.amount * s) (sym scale_eq) bounds.1;
      }
