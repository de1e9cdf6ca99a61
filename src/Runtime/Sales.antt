-- ===== src/Runtime/Sales.antt =====
-- Which sales go through under the constants of runtime/src/lib.rs.
use nft101_rust.Prelude.{
  ℕ, ◌+◌, ◌*◌, ◌^◌, ◌≤◌, ◌<◌, ◌≡◌, ◌≢◌, refl, none, some, Option-cases, inl, inr, List, [], ◌∷◌,
  All, subst, sym, arith,
}
use native.Mathlib.Nat.{mul-le-mul_left}
use nft101_rust.Frame.{Host, Checked}
use nft101_rust.Nft.Types.{Order, Vote}
use nft101_rust.Nft.Payout.{Terms, algorithm}
use nft101_rust.Nft.Payout.Rounds.{PayoutOf, algorithm-PayoutOf}
use nft101_rust.Nft.Payout.Within.{pledged, Weighs}
use nft101_rust.Nft.Payout.Complete.{payout_returns}
use nft101_rust.Runtime.{runtime_config, dollars, cents}
use nft101_rust.Runtime.Prices.{fifth_raw, Figures, terms-Figures}
use nft101_rust.Runtime.Fits.{terms_return}
use nft101_rust.Runtime.Weights.{vote-Weighs}

-- A vote of at least a cent, cast before the last block of its auction.
pub record OnTime (order : Order) (v : Vote) : Type 0 where
  pub amount_ge : cents ≤ v.amount
  pub left_ge : 1 ≤ v.keep_block_num
  pub left_le : v.keep_block_num ≤ order.keep_block_num

module _ {O L F N : Type 0} (h : Host O L F N) (rate : F) (default_account : ℕ) (r : N)
    (rate_eq : h.fixed.from_float rate ≡ some r) (r_raw : h.fixed.raw r ≡ fifth_raw) where
  open h.fixed use {raw, scale, scale_eq}

  all_weigh :
      (order : Order) (price bound : ℕ) (p : Terms h) (votes : List Vote)
      → order.keep_block_num ≤ 28800
      → Figures h rate default_account order price p
      → All (OnTime order) votes
      → pledged votes ≤ 9 * 10 ^ 18
      → All (Weighs h p.fix_rate p.day_block_num p.day p.stock bound) votes
  all_weigh order price bound p [] k g all small = tt
  all_weigh order price bound p (v ∷ vs) k g all small = (
    vote-Weighs h rate default_account r rate_eq r_raw p.fix_rate p.day_block_num p.day p.stock
        bound v order.keep_block_num g.blocks_raw k g.day_ge g.day_le all.0.amount_ge
        (omega (arith, small)) all.0.left_ge all.0.left_le,
    all_weigh order price bound p vs k g all.1 (omega (arith, small)),
  )

  -- The payout of a sale at one to 50 dollars.
  pub sale_returns :
      (order : Order) (price : ℕ) (votes : List Vote) (l : L)
      → 600 ≤ order.keep_block_num
      → order.keep_block_num ≤ 28800
      → dollars ≤ price
      → price ≤ 50 * dollars
      → All (OnTime order) votes
      → pledged votes ≤ 9 * 10 ^ 18
      → (paid : L) × (algorithm h (runtime_config rate default_account) order price votes l
          ≡ some paid)
  sale_returns order price votes l k1 k2 p1 p2 all small =
      let (p, e, g) = terms_return h rate default_account r rate_eq r_raw order price k1 k2 p2 in
      let days_le : raw p.day ≤ 2 * 2 ^ 64 = omega (arith, g.day_le, k2) in
      let days_ge : 768614336404564650 ≤ raw p.day = omega (arith, g.day_ge, k1) in
      let profit : raw p.profit_rate * raw p.bid_price ≡ price * fifth_raw * 2 ^ 64 =
        rw (g.rate_raw, g.price_raw) (omega arith) in
      let big : price * fifth_raw + 2 ^ 64 < raw p.stock =
        omega (arith, g.per_day_ge, g.stock_raw, p1, mul-le-mul_left (g.per_day + 1) days_le) in
      let fits : raw p.stock + pledged votes * 2 ^ 64 < 2 ^ 64 * 2 ^ 64 =
        omega (arith, g.per_day_le, g.stock_raw, p2, small, mul-le-mul_left g.per_day days_ge) in
      payout_returns h (runtime_config rate default_account) order price (price * fifth_raw) votes l
        p e (all_weigh order price (price * fifth_raw) p votes k2 g all small)
        (subst (λ (s : ℕ). raw p.profit_rate * raw p.bid_price < (price * fifth_raw + 1) * s)
          (sym scale_eq) (omega (arith, profit)))
        (subst (λ (s : ℕ). price * fifth_raw + s < raw p.stock) (sym scale_eq) big)
        (subst (λ (s : ℕ). raw p.stock + pledged votes * s < s * s) (sym scale_eq) fits)

  dear-Figures :
      (order : Order) (price : ℕ) (p : Terms h)
      → order.keep_block_num ≤ 28800
      → 5100 * dollars ≤ price
      → Figures h rate default_account order price p
      → ⊥
  dear-Figures order price p keep dear g =
      let days_le : raw p.day ≤ 2 * 2 ^ 64 = omega (arith, g.day_le, keep) in
      absurd (
        omega (
          arith,
          g.per_day_ge,
          g.stock_raw,
          g.stock_lt,
          dear,
          mul-le-mul_left (g.per_day + 1) days_le,
        ))

  -- In a build with overflow checks and with the constants of the runtime, the payout of a sale at 5,100 dollars or more panics if there is any vote,
  -- whatever the votes are.
  pub dear_sale_panics :
      (order : Order) (price : ℕ) (votes : List Vote) (l : L)
      → Checked h.fixed
      → order.keep_block_num ≤ 28800
      → 5100 * dollars ≤ price
      → price < 2 ^ 128
      → votes ≢ []
      → algorithm h (runtime_config rate default_account) order price votes l ≡ none
  dear_sale_panics order price [] l k keep dear fits some_vote = absurd (some_vote refl)
  dear_sale_panics order price (v ∷ vs) l k keep dear fits some_vote =
      elim (Option-cases
        (algorithm h (runtime_config rate default_account) order price (v ∷ vs) l)) [
          | inl e ↦ e
          | inr (paid, e) ↦
              let out : PayoutOf h (runtime_config rate default_account) order price (v ∷ vs) l
                  paid =
                algorithm-PayoutOf h (runtime_config rate default_account) order price v vs l paid
                  e in
              absurd (
                dear-Figures order price out.p keep dear (
                  terms-Figures h rate default_account order price out.p r k rate_eq r_raw
                    (omega (arith, keep)) fits out.terms_of))
        ]
