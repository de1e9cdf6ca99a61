-- ===== src/Runtime/Prices.antt =====
-- The numbers that `Module::algorithm` computes under the constants of runtime/src/lib.rs.
use nft101_rust.Prelude.{ℕ, ◌+◌, ◌*◌, ◌^◌, ◌≤◌, ◌<◌, ◌≡◌, sym, ap, ◌∙◌, some, arith}
use mathlib.Core.Option.{some-injective}
use nft101_rust.Frame.{Host, Checked}
use nft101_rust.Nft.Types.{Order}
use nft101_rust.Nft.Payout.{Terms}
use nft101_rust.Nft.Payout.Rounds.{TermsOf}
use nft101_rust.Runtime.{runtime_config}
use nft101_rust.Runtime.Numbers.{
  IsProduct, IsQuotient, mul_numeral_lt, from_int_numeral, mul_numeral, div_numeral,
}

-- `U64F64::from_num(0.2)`: the `f64` is 3602879701896397 / 2 ^ 54.
abbrev pub fifth_raw : ℕ
fifth_raw = 3602879701896397 * 2 ^ 10

module _ {O L F N : Type 0} (h : Host O L F N) (rate : F) (default_account : ℕ) where
  open h.fixed use {raw}

  -- The terms of a sale of an order: the days, the profit and the stock, as raw numbers.
  pub record Figures (order : Order) (price : ℕ) (p : Terms h) : Type 0 where
    pub rate_raw : raw p.profit_rate ≡ fifth_raw
    pub price_raw : raw p.bid_price ≡ price * 2 ^ 64
    pub blocks_raw : raw p.day_block_num ≡ 14400 * 2 ^ 64
    pub day_ge : order.keep_block_num * 2 ^ 64 < (raw p.day + 1) * 14400
    pub day_le : raw p.day * 14400 ≤ order.keep_block_num * 2 ^ 64
    pub per_day : ℕ
    pub per_day_le : per_day * raw p.day ≤ price * fifth_raw * 2 ^ 64
    pub per_day_ge : price * fifth_raw * 2 ^ 64 < (per_day + 1) * raw p.day
    pub stock_raw : raw p.stock ≡ 365 * per_day
    pub stock_lt : raw p.stock < 2 ^ 64 * 2 ^ 64

  -- The figures follow from the steps of the computation, each of them rounded down.
  pub steps-Figures :
      (order : Order) (price : ℕ) (p : Terms h) (keep profit per_day year : N)
      → raw p.profit_rate ≡ fifth_raw
      → raw p.bid_price ≡ price * 2 ^ 64
      → raw p.day_block_num ≡ 14400 * 2 ^ 64
      → raw keep ≡ order.keep_block_num * 2 ^ 64
      → raw year ≡ 365 * 2 ^ 64
      → IsQuotient h.fixed keep p.day_block_num p.day
      → IsProduct h.fixed p.bid_price p.profit_rate profit
      → IsQuotient h.fixed profit p.day per_day
      → h.fixed.mul per_day year ≡ some p.stock
      → IsProduct h.fixed per_day year p.stock
      → Figures order price p
  steps-Figures order price p keep profit per_day year rate_raw price_raw blocks_raw keep_raw
        year_raw day pr pd made st =
      let day_prod : (n : ℕ) → n * raw p.day_block_num ≡ n * 14400 * 2 ^ 64 =
        λ n. rw blocks_raw (omega arith) in
      let pr_prod : raw p.bid_price * raw p.profit_rate ≡ price * fifth_raw * 2 ^ 64 =
        rw (price_raw, rate_raw) (omega arith) in
      let pr_raw : raw profit ≡ price * fifth_raw = omega (arith, pr, pr_prod) in
      let st_prod : raw per_day * raw year ≡ raw per_day * 365 * 2 ^ 64 =
        rw year_raw (omega arith) in
      record {
        rate_raw = rate_raw;
        price_raw = price_raw;
        blocks_raw = blocks_raw;
        day_ge = omega (arith, day, keep_raw, day_prod (raw p.day + 1));
        day_le = omega (arith, day, keep_raw, day_prod (raw p.day));
        per_day = raw per_day;
        per_day_le = omega (arith, pd, pr_raw);
        per_day_ge = omega (arith, pd, pr_raw);
        stock_raw = omega (arith, st, st_prod);
        stock_lt = mul_numeral_lt h.fixed per_day year p.stock made;
      }

  pub terms-Figures :
      (order : Order) (price : ℕ) (p : Terms h) (r : N)
      → Checked h.fixed
      → h.fixed.from_float rate ≡ some r
      → raw r ≡ fifth_raw
      → order.keep_block_num < 2 ^ 32
      → price < 2 ^ 128
      → TermsOf h (runtime_config rate default_account) order price p
      → Figures order price p
  unfolding runtime_config
  terms-Figures order price p r k e1 r_raw k_small p_small t =
      let exact = from_int_numeral h.fixed k in
      steps-Figures order price p t.block_num t.profit t.per_day t.year
        (rw (some-injective _ _ (sym t.profit_eq ∙ e1)) r_raw)
        (exact _ p.bid_price t.price_eq
          ∙ ap (λ (n : ℕ). n * 2 ^ 64) (h.balance_to_u128-eq price p_small))
        (exact _ p.day_block_num t.blocks_eq
          ∙ ap (λ (n : ℕ). n * 2 ^ 64) (h.block_to_u128-eq 14400 (omega arith)))
        (exact _ t.block_num t.block_num_eq
          ∙ ap (λ (n : ℕ). n * 2 ^ 64)
              (h.block_to_u128-eq order.keep_block_num (omega (arith, k_small))))
        (exact 365 t.year t.year_eq)
        (div_numeral h.fixed k t.block_num p.day_block_num p.day t.day_eq)
        (mul_numeral h.fixed k p.bid_price p.profit_rate t.profit t.profit_rate_eq)
        (div_numeral h.fixed k t.profit p.day t.per_day t.per_day_eq) t.stock_eq
        (mul_numeral h.fixed k t.per_day t.year p.stock t.stock_eq)
