-- ===== src/Runtime/Fits.antt =====
-- When the numbers that `Module::algorithm` computes under the constants of runtime/src/lib.rs fit.
use nft101_rust.Prelude.{ℕ, ◌+◌, ◌*◌, ◌^◌, ◌≤◌, ◌<◌, ◌≡◌, ap, ◌∙◌, some, arith}
use native.Mathlib.Nat.{mul-le-mul_left}
use nft101_rust.Frame.{Host}
use nft101_rust.Nft.Types.{Order}
use nft101_rust.Nft.Payout.{Terms, terms}
use nft101_rust.Nft.Payout.Complete.{start_terms, terms_of}
use nft101_rust.Runtime.{runtime_config, dollars}
use nft101_rust.Runtime.Numbers.{
  IsQuotient, from_int_numeral_fits, mul_numeral_fits, div_numeral_fits,
}
use nft101_rust.Runtime.Prices.{fifth_raw, Figures, steps-Figures}

module _ {O L F N : Type 0} (h : Host O L F N) (rate : F) (default_account : ℕ) (r : N)
    (rate_eq : h.fixed.from_float rate ≡ some r) (r_raw : h.fixed.raw r ≡ fifth_raw) where
  open h.fixed use {raw}

  -- A number of blocks, as a fixed-point number.
  pub blocks_fit :
      (n : ℕ)
      → n ≤ 28800
      → (x : N) × (h.fixed.from_int (h.block_to_u128 n) ≡ some x) × (raw x ≡ n * 2 ^ 64)
  blocks_fit n le =
      let (x, e, q) =
        from_int_numeral_fits h.fixed (h.block_to_u128 n) (omega (arith, h.block_to_u128-le n)) in
      (x, e, q ∙ ap (λ (m : ℕ). m * 2 ^ 64) (h.block_to_u128-eq n (omega arith)))

  pub amount_fits :
      (n : ℕ)
      → n < 2 ^ 64
      → (x : N) × (h.fixed.from_int (h.balance_to_u128 n) ≡ some x) × (raw x ≡ n * 2 ^ 64)
  amount_fits n lt =
      let (x, e, q) =
        from_int_numeral_fits h.fixed (h.balance_to_u128 n)
          (omega (arith, h.balance_to_u128-le n)) in
      (x, e, q ∙ ap (λ (m : ℕ). m * 2 ^ 64) (h.balance_to_u128-eq n (omega arith)))

  -- A time over the blocks of a day.
  pub days_fit :
      (keep blocks : N) (n : ℕ)
      → raw keep ≡ n * 2 ^ 64
      → raw blocks ≡ 14400 * 2 ^ 64
      → n ≤ 28800
      → (d : N) × (h.fixed.div keep blocks ≡ some d)
        × IsQuotient h.fixed keep blocks d
        × (raw d * 14400 ≤ n * 2 ^ 64)
        × (n * 2 ^ 64 < (raw d + 1) * 14400)
  days_fit keep blocks n k b le =
      let (d, e, q) = div_numeral_fits h.fixed keep blocks (omega (arith, k, b)) in
      let prod : (m : ℕ) → m * raw blocks ≡ m * 14400 * 2 ^ 64 = λ m. rw b (omega arith) in
      (d, e, q, omega (arith, q, k, prod (raw d)), omega (arith, q, k, prod (raw d + 1)))

  pub terms_return :
      (order : Order) (price : ℕ)
      → 600 ≤ order.keep_block_num
      → order.keep_block_num ≤ 28800
      → price ≤ 50 * dollars
      → (p : Terms h) × (terms h (runtime_config rate default_account) order price ≡ some p)
        × Figures h rate default_account order price p
  unfolding runtime_config
  terms_return order price k1 k2 cheap =
      let (blocks, e3, blocks_raw) = blocks_fit 14400 (omega arith) in
      let (keep, e4, keep_raw) = blocks_fit order.keep_block_num k2 in
      let (bid_price, e5, price_raw) = amount_fits price (omega (arith, cheap)) in
      let (day, e6, day_raw, day_le, day_ge) =
        days_fit keep blocks order.keep_block_num keep_raw blocks_raw k2 in
      let product : raw bid_price * raw r ≡ price * fifth_raw * 2 ^ 64 =
        rw (price_raw, r_raw) (omega arith) in
      let (profit, e7, profit_raw) =
        mul_numeral_fits h.fixed bid_price r (omega (arith, product, cheap)) in
      let (per_day, e8, per_day_raw) =
        div_numeral_fits h.fixed profit day
          (omega (arith, profit_raw, product, cheap, day_ge, k1)) in
      let (year, e9, year_raw) = from_int_numeral_fits h.fixed 365 (omega arith) in
      let per_day_lt : raw per_day * 768614336404564650 ≤ 50 * dollars * fifth_raw * 2 ^ 64 =
        omega (
          arith,
          profit_raw,
          product,
          cheap,
          per_day_raw,
          mul-le-mul_left {m = 768614336404564650} {n = raw day} (raw per_day)
              (omega (arith, day_ge, k1)),
        ) in
      let year_product : raw per_day * raw year ≡ raw per_day * 365 * 2 ^ 64 =
        rw year_raw (omega arith) in
      let (stock, e10, stock_raw) =
        mul_numeral_fits h.fixed per_day year (omega (arith, year_product, per_day_lt)) in
      (
        start_terms h r r blocks bid_price day stock,
        terms_of h (runtime_config rate default_account) order price r r blocks keep bid_price day
            profit per_day year stock rate_eq rate_eq e3 e4 e5 e6 e7 e8 e9 e10,
        steps-Figures h rate default_account order price
            (start_terms h r r blocks bid_price day stock) keep profit per_day year r_raw price_raw
            blocks_raw keep_raw year_raw day_raw profit_raw per_day_raw e10 stock_raw,
      )
