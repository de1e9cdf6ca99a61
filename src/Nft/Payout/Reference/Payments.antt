-- ===== src/Nft/Payout/Reference/Payments.antt =====
-- All of `Module::algorithm` of pallets/nft/src/lib.rs against its reference.
use nft101_rust.Prelude.{ℕ, ◌^◌, ◌<◌, ◌≡◌, refl, sym, ◌∙◌, some, List, [], ◌∷◌, All}
use mathlib.Core.Option.{some-injective}
use nft101_rust.Frame.{Host}
use nft101_rust.Nft.Types.{Vote, Order, Config}
use nft101_rust.Nft.Payout.{Terms, algorithm, no_weights}
use nft101_rust.Nft.Payout.Rounds.{TermsOf, PayoutOf, algorithm-PayoutOf}
use nft101_rust.Nft.Payout.Reference.{
  ref_int, ref_votes, ref_day, ref_stock, ref_profit, ref_tally, no_tally, ref_pay, ref_algorithm,
}
use nft101_rust.Nft.Payout.Reference.Votes.{Computes, Narrow, Agrees, weigh_votes_reference}
use nft101_rust.Nft.Payout.Reference.Shares.{pay_votes_reference}

module _ {O L F N : Type 0} (h : Host O L F N) (fit : ℕ → ℕ) (computes : Computes h.fixed fit) where
  open h.fixed use {raw, scale}

  -- The terms are those of the reference.
  stock_exact :
      (c : Config F) (order : Order) (price : ℕ) (p : Terms h)
      → price < 2 ^ 128
      → order.keep_block_num < 2 ^ 128
      → c.day_block_num < 2 ^ 128
      → TermsOf h c order price p
      → (raw p.day_block_num ≡ ref_int scale fit c.day_block_num)
        × (raw p.bid_price ≡ ref_int scale fit price)
        × (raw p.day ≡ ref_day scale fit order.keep_block_num c.day_block_num)
        × (raw p.stock
            ≡ ref_stock scale fit price
                (raw p.profit_rate)
                (ref_day scale fit order.keep_block_num c.day_block_num))
  stock_exact c order price p price_lt keep_lt blocks_lt g =
      let blocks_eq : raw p.day_block_num ≡ ref_int scale fit c.day_block_num =
        rw
          (
            computes.raw-from_int _ p.day_block_num g.blocks_eq,
            h.block_to_u128-eq c.day_block_num blocks_lt,
          )
          refl in
      let price_eq : raw p.bid_price ≡ ref_int scale fit price =
        rw (computes.raw-from_int _ p.bid_price g.price_eq, h.balance_to_u128-eq price price_lt)
          refl in
      let day_eq : raw p.day ≡ ref_day scale fit order.keep_block_num c.day_block_num =
        rw
          (
            computes.raw-div g.block_num p.day_block_num p.day g.day_eq,
            computes.raw-from_int _ g.block_num g.block_num_eq,
            h.block_to_u128-eq order.keep_block_num keep_lt,
            blocks_eq,
          )
          refl in
      (
        blocks_eq,
        price_eq,
        day_eq,
        rw
            (
              computes.raw-mul g.per_day g.year p.stock g.stock_eq,
              computes.raw-div g.profit p.day g.per_day g.per_day_eq,
              computes.raw-mul p.bid_price p.profit_rate g.profit g.profit_rate_eq,
              computes.raw-from_int 365 g.year g.year_eq,
              day_eq,
              price_eq,
            )
            refl,
      )

  -- The loop over the votes of a sale ends with the numbers of the reference.
  pub tally_exact :
      (c : Config F) (order : Order) (price : ℕ) (votes : List Vote) (l paid : L)
      → All Narrow votes
      → price < 2 ^ 128
      → order.keep_block_num < 2 ^ 128
      → c.day_block_num < 2 ^ 128
      → (out : PayoutOf h c order price votes l paid)
      → Agrees h out.w (
          ref_tally scale fit
            (raw out.p.fix_rate)
            (raw out.p.profit_rate)
            c.day_block_num
            order.keep_block_num
            price
            votes)
  unfolding no_weights
  tally_exact c order price votes l paid narrow price_lt keep_lt blocks_lt out =
      let p = out.p in
      let (blocks_eq, _, day_eq, stock_eq) =
        stock_exact c order price p price_lt keep_lt blocks_lt out.terms_of in
      let nought = computes.raw-from_int 0 out.zero_num out.zero_eq in
      rw (← stock_eq, ← day_eq, ← blocks_eq)
        (weigh_votes_reference h fit computes p.fix_rate p.day_block_num p.day p.stock votes _ out.w
          (no_tally scale fit) narrow
          (record {
            fixed_eq = refl;
            total_eq = nought;
            rate_eq = nought;
            tt_eq = nought;
            shares_eq = refl;
          })
          out.weights_eq)

  -- The profit that is divided is that of the reference.
  pub profit_exact :
      (c : Config F) (order : Order) (price : ℕ) (votes : List Vote) (l paid : L)
      → price < 2 ^ 128
      → order.keep_block_num < 2 ^ 128
      → c.day_block_num < 2 ^ 128
      → (out : PayoutOf h c order price votes l paid)
      → raw out.profit_amount ≡ ref_profit scale fit (raw out.p.profit_rate) price
  profit_exact c order price votes l paid price_lt keep_lt blocks_lt out =
      rw
        (
          computes.raw-mul out.p.profit_rate out.p.bid_price out.profit_amount out.profit_eq,
          (stock_exact c order price out.p price_lt keep_lt blocks_lt out.terms_of).1,
        )
        refl

  payout_exact :
      (c : Config F) (order : Order) (price : ℕ) (votes : List Vote) (l paid : L)
      (fix_rate rate : N)
      → All Narrow votes
      → price < 2 ^ 128
      → order.keep_block_num < 2 ^ 128
      → c.day_block_num < 2 ^ 128
      → h.fixed.from_float c.fix_rate ≡ some fix_rate
      → h.fixed.from_float c.profit_rate ≡ some rate
      → PayoutOf h c order price votes l paid
      → paid
        ≡ ref_algorithm h fit
            (raw fix_rate)
            (raw rate)
            c.day_block_num
            order.keep_block_num
            order.owner
            price
            votes
            l
  unfolding ref_algorithm
  payout_exact c order price votes l paid fix_rate rate narrow price_lt keep_lt blocks_lt ef er
        out =
      let p = out.p in
      let k = tally_exact c order price votes l paid narrow price_lt keep_lt blocks_lt out in
      let fix_eq : p.fix_rate ≡ fix_rate = some-injective _ _ (sym out.terms_of.fix_eq ∙ ef) in
      let rate_eq : p.profit_rate ≡ rate = some-injective _ _ (sym out.terms_of.profit_eq ∙ er) in
      let profit_eq = profit_exact c order price votes l paid price_lt keep_lt blocks_lt out in
      rw (← fix_eq, ← rate_eq, ← profit_eq, ← k.tt_eq, ← k.shares_eq)
        (pay_votes_reference h fit computes order.owner out.profit_amount out.w.tt out.w.vote_res l
          paid out.paid_eq)

  -- In a build whose operations of `U64F64` round down and do `fit` with the result, a payout that returns, for votes, a
  -- price and times of at most 128 bits, leaves exactly the ledger that the reference with `fit` computes on natural
  -- numbers from the two rates.
  pub algorithm_reference :
      (c : Config F) (order : Order) (price : ℕ) (votes : List Vote) (l paid : L)
      (fix_rate rate : N)
      → All Narrow votes
      → price < 2 ^ 128
      → order.keep_block_num < 2 ^ 128
      → c.day_block_num < 2 ^ 128
      → h.fixed.from_float c.fix_rate ≡ some fix_rate
      → h.fixed.from_float c.profit_rate ≡ some rate
      → algorithm h c order price votes l ≡ some paid
      → paid
        ≡ ref_algorithm h fit
            (raw fix_rate)
            (raw rate)
            c.day_block_num
            order.keep_block_num
            order.owner
            price
            votes
            l
  unfolding algorithm ref_algorithm ref_votes ref_pay
  algorithm_reference c order price [] l paid fix_rate rate narrow price_lt keep_lt blocks_lt ef er
        e =
      sym (some-injective _ _ e)
  algorithm_reference c order price (v ∷ vs) l paid fix_rate rate narrow price_lt keep_lt blocks_lt
        ef er e =
      let out : PayoutOf h c order price (v ∷ vs) l paid =
        algorithm-PayoutOf h c order price v vs l paid e in
      payout_exact c order price (v ∷ vs) l paid fix_rate rate narrow price_lt keep_lt blocks_lt ef
        er out
