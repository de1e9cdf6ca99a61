-- ===== src/Nft/Payout/Profit.antt =====
-- What the shares of `Module::algorithm` of pallets/nft/src/lib.rs add up to.
use nft101_rust.Prelude.{
  ℕ, ◌+◌, ◌-◌, ◌*◌, ◌≤◌, ◌<◌, ◌≡◌, refl, some, List, [], ◌∷◌, ◌++◌, ap, sym, ◌∙◌, ◌≢◌, ◌⊎◌, inl,
  inr, arith,
}
use native.Mathlib.Decide.{ℕ_discrete}
use native.Mathlib.Nat.{mul-le-mul_right, mul-le-mul_left}
use mathlib.Core.Option.{some-injective}
use nft101_rust.Prelude.Partial.{bind-step}
use nft101_rust.Prelude.Products.{share_le, payments_le, total_le}
use nft101_rust.Frame.{AccountId, Host, Checked, Reply, accepted, refused}
use nft101_rust.Nft.Types.{Vote, Order, Config}
use nft101_rust.Nft.Payout.{
  Weights, share_of, pay_votes, ignoring, weigh_votes, weigh_vote, algorithm, no_weights,
}
use nft101_rust.Nft.Payout.Rounds.{
  Round, weigh_vote-Round, ShareOf, share_of-ShareOf, PayoutOf, algorithm-PayoutOf,
}

module _ {O L F N : Type 0} (h : Host O L F N) where
  open h.fixed use {
    raw, scale, scale_positive, div, raw-mul, raw-div, raw-floor, from_int-le, div_zero,
  }
  open h.currency use {free_balance, unreserve, transfer, unreserve_moves, transfer_moves}

  -- The weights of a list of results.
  abbrev pub weights : List (Vote × N) → ℕ
  weights [] = 0
  weights ((v, t) ∷ rest) = raw t + weights rest

  pub weights-append : (xs ys : List (Vote × N)) → weights (xs ++ ys) ≡ weights xs + weights ys
  weights-append [] ys = omega arith
  weights-append ((v, t) ∷ xs) ys = omega (arith, weights-append xs ys)

  -- The seller's account after one vote was unlocked and paid.
  pay_one :
      (seller who locked amount : ℕ) (l : L) (r : Reply L)
      → transfer seller who amount (unreserve who locked l) ≡ r
      → free_balance seller l ≤ free_balance seller (ignoring (unreserve who locked l) r) + amount
  pay_one seller who locked amount l (accepted l') e = ground (
    arith,
    unreserve_moves who locked l seller,
    transfer_moves seller who amount (unreserve who locked l) l' seller e,
  )
  pay_one seller who locked amount l (refused x) e =
      ground (arith, unreserve_moves who locked l seller)

  pub share_bound :
      (profit sum t : N) (amount : ℕ)
      → ShareOf h profit sum t amount
      → amount * scale * raw sum ≤ raw profit * raw t
  share_bound profit sum t amount g =
      share_le amount scale (raw g.share) (raw g.unit) (raw t) (raw sum) (raw profit) scale_positive
        (omega (
          arith,
          mul-le-mul_right {m = amount} {n = g.whole} scale
              (omega (arith, h.u128_to_balance-le g.whole, g.amount_eq)),
          raw-floor g.share g.whole g.whole_eq,
        ))
        (raw-mul g.unit t g.share g.share_eq) (raw-div profit sum g.unit g.unit_eq)

  nothing_moves : (f k : ℕ) → (f - f) * k ≡ 0
  nothing_moves f k = let e : f - f ≡ 0 = omega arith in rw e (omega arith)

  pay_votes_bound :
      (seller : AccountId) (profit sum : N) (rest : List (Vote × N)) (l l' : L)
      → pay_votes h seller profit sum rest l ≡ some l'
      → (free_balance seller l - free_balance seller l') * (scale * raw sum)
        ≤ raw profit * weights rest
  unfolding pay_votes
  pay_votes_bound seller profit sum [] l l' e =
      rw (some-injective _ _ e)
        (omega (arith, nothing_moves (free_balance seller l') (scale * raw sum)))
  pay_votes_bound seller profit sum ((v, t) ∷ rest) l l' e =
      bind-step (share_of h profit sum t) e λ amount e1 e2.
        payments_le _
          (free_balance seller (
            ignoring (unreserve v.owner v.amount l)
              (transfer seller v.owner amount (unreserve v.owner v.amount l))))
          _ amount (scale * raw sum) (raw profit) (raw t) (weights rest)
          (pay_one seller v.owner v.amount amount l _ refl)
          (omega
            (arith, share_bound profit sum t amount (share_of-ShareOf h profit sum t amount e1)))
          (pay_votes_bound seller profit sum rest _ l' e2)

  Round-positive :
      (fix_rate blocks day stock : N) (v : Vote) (w w' : Weights N)
      → Round h fix_rate blocks day stock v w w'
      → 0 < raw w'.tt
  Round-positive fix_rate blocks day stock v w w' r = elim (ℕ_discrete (raw w'.tt) 0) [
    | yes p ↦ cc (div_zero r.t w'.tt p, r.share_eq)
    | no p ↦ omega arith
  ]

  -- A loop over at least one vote that returns has a positive total.
  weigh_votes_positive :
      (fix_rate blocks day stock : N) (vs : List Vote) (w w' : Weights N)
      → (0 < raw w.tt) ⊎ (vs ≢ [])
      → weigh_votes h fix_rate blocks day stock vs w ≡ some w'
      → 0 < raw w'.tt
  unfolding weigh_votes
  weigh_votes_positive fix_rate blocks day stock [] w w' (inl p) e = ground arith
  weigh_votes_positive fix_rate blocks day stock [] w w' (inr p) e = absurd (p refl)
  weigh_votes_positive fix_rate blocks day stock (v ∷ vs) w w' p e =
      bind-step (weigh_vote h fix_rate blocks day stock v w) e λ w1 e1 rest.
        weigh_votes_positive fix_rate blocks day stock vs w1 w'
          (inl (
            Round-positive fix_rate blocks day stock v w w1
              (weigh_vote-Round h fix_rate blocks day stock v w w1 e1)))
          rest

  module _ (k : Checked h.fixed) where
    open k use {raw-add}

    -- The total of the loop is the sum of the weights that it records.
    pub weigh_votes_total :
        (fix_rate blocks day stock : N) (vs : List Vote) (w w' : Weights N)
        → weigh_votes h fix_rate blocks day stock vs w ≡ some w'
        → raw w.tt ≡ weights w.vote_res
        → raw w'.tt ≡ weights w'.vote_res
    unfolding weigh_votes
    weigh_votes_total fix_rate blocks day stock [] w w' e same = ground (arith)
    weigh_votes_total fix_rate blocks day stock (v ∷ vs) w w' e same =
        bind-step (weigh_vote h fix_rate blocks day stock v w) e λ w1 e1 rest.
          let r : Round h fix_rate blocks day stock v w w1 =
            weigh_vote-Round h fix_rate blocks day stock v w w1 e1 in
          weigh_votes_total fix_rate blocks day stock vs w1 w' rest (
            rw (r.res_eq) (
              omega
                (arith, raw-add w.tt r.t w1.tt r.tt_eq, weights-append w.vote_res ((v, r.t) ∷ []))))

    -- What is at most the profit by the weights is at most that part of the price.
    pub part_of_price :
        (c : Config F) (order : Order) (bid_price : ℕ) (v : Vote) (vs : List Vote) (l paid : L)
        (rate : N) (x : ℕ)
        → h.fixed.from_float c.profit_rate ≡ some rate
        → (out : PayoutOf h c order bid_price (v ∷ vs) l paid)
        → x * (scale * raw out.w.tt) ≤ raw out.profit_amount * weights out.w.vote_res
        → x * scale ≤ raw rate * bid_price
    unfolding no_weights
    part_of_price c order bid_price v vs l paid rate x re out moved =
        let p = out.p in
        let start = no_weights h out.zero_num in
        let price_raw : raw p.bid_price ≤ bid_price * scale = omega (
          arith,
          from_int-le _ p.bid_price out.terms_of.price_eq,
          mul-le-mul_right {m = h.balance_to_u128 bid_price} {n = bid_price} scale
              (h.balance_to_u128-le bid_price),
        ) in
        let rate_raw : p.profit_rate ≡ rate =
          some-injective _ _ (sym out.terms_of.profit_eq ∙ re) in
        let sums : raw out.w.tt ≡ weights out.w.vote_res =
          weigh_votes_total _ _ _ _ (v ∷ vs) start out.w out.weights_eq
            (omega (arith, from_int-le 0 out.zero_num out.zero_eq)) in
        let profit = raw-mul p.profit_rate p.bid_price out.profit_amount out.profit_eq in
        total_le _ scale (raw out.w.tt) (raw out.profit_amount) (raw rate) bid_price
          (weigh_votes_positive _ _ _ _ (v ∷ vs) start out.w (inr (λ q. cc)) out.weights_eq)
          scale_positive (omega (arith, moved, ap (λ (n : ℕ). raw out.profit_amount * n) sums))
          (omega (
            arith,
            profit,
            mul-le-mul_left (raw rate) price_raw,
            ap (λ (x : N). raw x * raw p.bid_price) rate_raw,
          ))

    -- In a build with overflow checks, a payout that returns takes at most the voters' part of the price, `profit_rate * bid_price`, out of the seller's
    -- account, whatever the votes weigh.
    pub payout_bounded :
        (c : Config F) (order : Order) (bid_price : ℕ) (votes : List Vote) (l paid : L) (rate : N)
        → h.fixed.from_float c.profit_rate ≡ some rate
        → algorithm h c order bid_price votes l ≡ some paid
        → (free_balance order.owner l - free_balance order.owner paid) * scale
          ≤ raw rate * bid_price
    unfolding algorithm
    payout_bounded c order bid_price [] l paid rate re e =
        rw (some-injective _ _ e)
          (omega (arith, nothing_moves (free_balance order.owner paid) scale))
    payout_bounded c order bid_price (v ∷ vs) l paid rate re e =
        let out : PayoutOf h c order bid_price (v ∷ vs) l paid =
          algorithm-PayoutOf h c order bid_price v vs l paid e in
        part_of_price c order bid_price v vs l paid rate _ re out
          (pay_votes_bound order.owner out.profit_amount out.w.tt out.w.vote_res l paid out.paid_eq)
