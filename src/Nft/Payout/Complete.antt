-- ===== src/Nft/Payout/Complete.antt =====
-- When `Module::algorithm` of pallets/nft/src/lib.rs returns as a whole.
use nft101_rust.Prelude.{ℕ, ◌+◌, ◌*◌, ◌≤◌, ◌<◌, ◌≡◌, refl, some, inl, List, [], ◌∷◌, All, arith}
use native.Mathlib.Nat.{mul-le-mul_right}
use nft101_rust.Prelude.Rounding.{le_of_scaled}
use nft101_rust.Prelude.Partial.{bind-some}
use nft101_rust.Frame.{Host}
use nft101_rust.Nft.Types.{Vote, Order, Config}
use nft101_rust.Nft.Payout.{Weights, Terms, terms, algorithm, no_weights, weigh_votes, pay_votes}
use nft101_rust.Nft.Payout.Within.{pledged, Weighs}
use nft101_rust.Nft.Payout.Returns.{weigh_votes_returns, pay_votes_returns}

module _ {O L F N : Type 0} (h : Host O L F N) where
  open h.fixed use {
    raw, scale, scale_positive, scale_eq, from_int, mul, raw-mul, mul_fits, from_int_fits,
  }

  abbrev pub start_terms : N → N → N → N → N → N → Terms h
  start_terms fix_rate profit_rate blocks bid_price day stock = record {
    fix_rate = fix_rate;
    profit_rate = profit_rate;
    day_block_num = blocks;
    bid_price = bid_price;
    day = day;
    stock = stock;
  }

  pub terms_of :
      (c : Config F) (order : Order) (price : ℕ)
      (fix_rate profit_rate blocks keep bid_price day profit per_day year stock : N)
      → h.fixed.from_float c.fix_rate ≡ some fix_rate
      → h.fixed.from_float c.profit_rate ≡ some profit_rate
      → from_int (h.block_to_u128 c.day_block_num) ≡ some blocks
      → from_int (h.block_to_u128 order.keep_block_num) ≡ some keep
      → from_int (h.balance_to_u128 price) ≡ some bid_price
      → h.fixed.div keep blocks ≡ some day
      → mul bid_price profit_rate ≡ some profit
      → h.fixed.div profit day ≡ some per_day
      → from_int 365 ≡ some year
      → mul per_day year ≡ some stock
      → terms h c order price ≡ some (start_terms fix_rate profit_rate blocks bid_price day stock)
  unfolding terms
  terms_of c order price fix_rate profit_rate blocks keep bid_price day profit per_day year stock e1
        e2 e3 e4 e5 e6 e7 e8 e9 e10 =
      bind-some _ e1 (
        bind-some _ e2 (
          bind-some _ e3 (
            bind-some _ e4 (
              bind-some _ e5 (
                bind-some _ e6
                  (bind-some _ e7 (bind-some _ e8 (bind-some _ e9 (bind-some _ e10 refl)))))))))

  algorithm_of :
      (c : Config F) (order : Order) (price : ℕ) (v : Vote) (vs : List Vote) (l : L) (p : Terms h)
      (zero_num : N) (w : Weights N) (profit : N) (paid : L)
      → terms h c order price ≡ some p
      → from_int 0 ≡ some zero_num
      → weigh_votes h p.fix_rate p.day_block_num p.day p.stock (v ∷ vs) (no_weights h zero_num)
        ≡ some w
      → mul p.profit_rate p.bid_price ≡ some profit
      → pay_votes h order.owner profit w.tt w.vote_res l ≡ some paid
      → algorithm h c order price (v ∷ vs) l ≡ some paid
  unfolding algorithm
  algorithm_of c order price v vs l p zero_num w profit paid e1 e2 e3 e4 e5 =
      bind-some _ e1 (bind-some _ e2 (bind-some _ e3 (bind-some _ e4 e5)))

  -- The payout returns if each weight is between one and the vote's amount, the profit is bounded, the stock is more
  -- than a unit above the bound, and stock and amounts fit together.
  pub payout_returns :
      (c : Config F) (order : Order) (price bound : ℕ) (votes : List Vote) (l : L) (p : Terms h)
      → terms h c order price ≡ some p
      → All (Weighs h p.fix_rate p.day_block_num p.day p.stock bound) votes
      → raw p.profit_rate * raw p.bid_price < (bound + 1) * scale
      → bound + scale < raw p.stock
      → raw p.stock + pledged votes * scale < scale * scale
      → (paid : L) × (algorithm h c order price votes l ≡ some paid)
  unfolding algorithm no_weights
  payout_returns c order price bound [] l p e all profit_lt big fits = (l, refl)
  payout_returns c order price bound (v ∷ vs) l p e all profit_lt big fits =
      let (zero_num, e1, zero_raw) = from_int_fits 0 scale_positive in
      let nought : raw zero_num ≡ 0 = omega (arith, zero_raw) in
      let start : Weights N = no_weights h zero_num in
      let (w, e2, share, sums) =
        weigh_votes_returns h p.fix_rate p.day_block_num p.day p.stock bound (v ∷ vs) start all
          (record { rate_kept = inl refl; shares_le = omega arith; sums = omega (arith, nought) })
          big (omega (arith, nought, fits)) (inl (λ q. cc)) in
      let (profit, e3, _) = mul_fits p.profit_rate p.bid_price (
        omega (
          arith,
          profit_lt,
          mul-le-mul_right {m = bound + 1} {n = scale * scale} scale (omega (arith, big, fits)),
        )) in
      let profit_le : raw profit ≤ bound =
        le_of_scaled (raw profit) bound scale
          (omega (arith, raw-mul p.profit_rate p.bid_price profit e3, profit_lt)) in
      let (paid, e4) =
        pay_votes_returns h order.owner profit w.tt w.vote_res l (omega (arith, profit_le, share))
          (omega (arith, profit_le, big, fits)) (omega (arith, sums)) in
      (paid, algorithm_of c order price v vs l p zero_num w profit paid e e1 e2 e3 e4)
