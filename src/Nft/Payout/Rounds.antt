-- ===== src/Nft/Payout/Rounds.antt =====
-- What a payout that does not panic has computed, step by step (`Module::algorithm`).
use nft101_rust.Prelude.{ℕ, ◌≡◌, refl, true, some, List, [], ◌∷◌, ◌++◌, subst, if◌then◌else◌}
use mathlib.Core.Option.{some-injective}
use nft101_rust.Prelude.Partial.{bind-step}
use nft101_rust.Frame.{Host}
use nft101_rust.Nft.Types.{Order, Vote, Config}
use nft101_rust.Nft.Payout.{
  Weights, Terms, vote_weight, next_rate, weigh_vote, weigh_votes, share_of, pay_votes, terms,
  algorithm, no_weights,
}

module _ {O L F N : Type 0} (h : Host O L F N) where
  open h.fixed use {from_int, from_float, add, mul, div, less}

  -- One round of the loop over the votes.
  pub record Round (fix_rate blocks day stock : N) (v : Vote) (w w' : Weights N) : Type 0 where
    pub pre_weight : N
    pub t : N
    pub share : N
    pub yield : N
    pub year_rate : N
    pub weight_eq : vote_weight h blocks day v ≡ some pre_weight
    pub total_eq : add w.total pre_weight ≡ some w'.total
    pub rate_eq : next_rate h stock w w'.total ≡ some w'.weight_rate
    pub t_eq : mul pre_weight w'.weight_rate ≡ some t
    pub tt_eq : add w.tt t ≡ some w'.tt
    pub share_eq : div t w'.tt ≡ some share
    pub yield_eq : mul share stock ≡ some yield
    pub year_eq : div yield pre_weight ≡ some year_rate
    pub fixed_eq : w'.is_fixed ≡ (if less year_rate fix_rate then true else w.is_fixed)
    pub res_eq : w'.vote_res ≡ w.vote_res ++ (v, t) ∷ []

  pub weigh_vote-Round :
      (fix_rate blocks day stock : N) (v : Vote) (w w' : Weights N)
      → weigh_vote h fix_rate blocks day stock v w ≡ some w'
      → Round fix_rate blocks day stock v w w'
  unfolding weigh_vote
  weigh_vote-Round fix_rate blocks day stock v w w' e =
      bind-step (vote_weight h blocks day v) e λ pre e1 r1.
        bind-step (add w.total pre) r1 λ total e2 r2.
          bind-step (next_rate h stock w total) r2 λ rate e3 r3.
            bind-step (mul pre rate) r3 λ t e4 r4. bind-step (add w.tt t) r4 λ sum e5 r5.
              bind-step (div t sum) r5 λ share e6 r6. bind-step (mul share stock) r6 λ yield e7 r7.
                bind-step (div yield pre) r7 λ year e8 r8.
                  subst (Round fix_rate blocks day stock v w) (some-injective _ _ r8) (record {
                    pre_weight = pre;
                    t = t;
                    share = share;
                    yield = yield;
                    year_rate = year;
                    weight_eq = e1;
                    total_eq = e2;
                    rate_eq = e3;
                    t_eq = e4;
                    tt_eq = e5;
                    share_eq = e6;
                    yield_eq = e7;
                    year_eq = e8;
                    fixed_eq = refl;
                    res_eq = refl;
                  })

  -- What the loops start from.
  pub record TermsOf (c : Config F) (order : Order) (bid_price : ℕ) (p : Terms h) : Type 0 where
    pub block_num : N
    pub profit : N
    pub per_day : N
    pub year : N
    pub fix_eq : from_float c.fix_rate ≡ some p.fix_rate
    pub profit_eq : from_float c.profit_rate ≡ some p.profit_rate
    pub blocks_eq : from_int (h.block_to_u128 c.day_block_num) ≡ some p.day_block_num
    pub block_num_eq : from_int (h.block_to_u128 order.keep_block_num) ≡ some block_num
    pub price_eq : from_int (h.balance_to_u128 bid_price) ≡ some p.bid_price
    pub day_eq : div block_num p.day_block_num ≡ some p.day
    pub profit_rate_eq : mul p.bid_price p.profit_rate ≡ some profit
    pub per_day_eq : div profit p.day ≡ some per_day
    pub year_eq : from_int 365 ≡ some year
    pub stock_eq : mul per_day year ≡ some p.stock

  pub terms-TermsOf :
      (c : Config F) (order : Order) (bid_price : ℕ) (p : Terms h)
      → terms h c order bid_price ≡ some p
      → TermsOf c order bid_price p
  unfolding terms
  terms-TermsOf c order bid_price p e = bind-step (from_float c.fix_rate) e λ fix_rate e1 r1.
      bind-step (from_float c.profit_rate) r1 λ profit_rate e2 r2.
        bind-step (from_int (h.block_to_u128 c.day_block_num)) r2 λ blocks e3 r3.
          bind-step (from_int (h.block_to_u128 order.keep_block_num)) r3 λ block_num e4 r4.
            bind-step (from_int (h.balance_to_u128 bid_price)) r4 λ price e5 r5.
              bind-step (div block_num blocks) r5 λ day e6 r6.
                bind-step (mul price profit_rate) r6 λ profit e7 r7.
                  bind-step (div profit day) r7 λ per_day e8 r8.
                    bind-step (from_int 365) r8 λ year e9 r9.
                      bind-step (mul per_day year) r9 λ stock e10 r10.
                        subst (TermsOf c order bid_price) (some-injective _ _ r10) (record {
                          block_num = block_num;
                          profit = profit;
                          per_day = per_day;
                          year = year;
                          fix_eq = e1;
                          profit_eq = e2;
                          blocks_eq = e3;
                          block_num_eq = e4;
                          price_eq = e5;
                          day_eq = e6;
                          profit_rate_eq = e7;
                          per_day_eq = e8;
                          year_eq = e9;
                          stock_eq = e10;
                        })

  -- A payout to at least one voter.
  pub record PayoutOf (c : Config F) (order : Order) (bid_price : ℕ) (votes : List Vote)
      (l paid : L) : Type 0 where
    pub p : Terms h
    pub zero_num : N
    pub w : Weights N
    pub profit_amount : N
    pub terms_of : TermsOf c order bid_price p
    pub zero_eq : from_int 0 ≡ some zero_num
    pub weights_eq :
        weigh_votes h p.fix_rate p.day_block_num p.day p.stock votes (no_weights h zero_num)
        ≡ some w
    pub profit_eq : mul p.profit_rate p.bid_price ≡ some profit_amount
    pub paid_eq : pay_votes h order.owner profit_amount w.tt w.vote_res l ≡ some paid

  pub algorithm-PayoutOf :
      (c : Config F) (order : Order) (bid_price : ℕ) (v : Vote) (vs : List Vote) (l paid : L)
      → algorithm h c order bid_price (v ∷ vs) l ≡ some paid
      → PayoutOf c order bid_price (v ∷ vs) l paid
  unfolding algorithm
  algorithm-PayoutOf c order bid_price v vs l paid e =
      bind-step (terms h c order bid_price) e λ p e1 r1. bind-step (from_int 0) r1 λ zero_num e2 r2.
        bind-step
          (weigh_votes h p.fix_rate p.day_block_num p.day p.stock (v ∷ vs) (no_weights h zero_num))
          r2
          λ w e3 r3. bind-step (mul p.profit_rate p.bid_price) r3 λ profit e4 r4. record {
            p = p;
            zero_num = zero_num;
            w = w;
            profit_amount = profit;
            terms_of = terms-TermsOf c order bid_price p e1;
            zero_eq = e2;
            weights_eq = e3;
            profit_eq = e4;
            paid_eq = r4;
          }

  -- What one vote earns.
  pub record ShareOf (profit_amount sum t : N) (amount : ℕ) : Type 0 where
    pub unit : N
    pub share : N
    pub whole : ℕ
    pub unit_eq : div profit_amount sum ≡ some unit
    pub share_eq : mul unit t ≡ some share
    pub whole_eq : h.fixed.floor share ≡ some whole
    pub amount_eq : h.u128_to_balance whole ≡ amount

  pub share_of-ShareOf :
      (profit_amount sum t : N) (amount : ℕ)
      → share_of h profit_amount sum t ≡ some amount
      → ShareOf profit_amount sum t amount
  unfolding share_of
  share_of-ShareOf profit_amount sum t amount e = bind-step (div profit_amount sum) e λ unit e1 r1.
      bind-step (mul unit t) r1 λ share e2 r2. bind-step (h.fixed.floor share) r2 λ whole e3 r3.
        record {
          unit = unit;
          share = share;
          whole = whole;
          unit_eq = e1;
          share_eq = e2;
          whole_eq = e3;
          amount_eq = some-injective _ _ r3;
        }
