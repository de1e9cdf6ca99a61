-- ===== src/Nft/Payout/Within.antt =====
-- When a round of the loop in `Module::algorithm` of pallets/nft/src/lib.rs does not panic.
use nft101_rust.Prelude.{
  ℕ, ◌+◌, ◌*◌, ◌≤◌, ◌<◌, ◌≡◌, refl, true, false, Bool-cases, some, inl, inr, ◌⊎◌, List, [], ◌∷◌,
  ◌++◌, if◌then◌else◌, arith,
}
use native.Mathlib.Nat.{mul-le-mul_left, mul-le-mul_right}
use nft101_rust.Prelude.Rounding.{
  quotient_le_one, quotient_above, product_le, product_ge, product_fits, positive_of_mul,
}
use nft101_rust.Prelude.Partial.{bind-some}
use nft101_rust.Frame.{Host}
use nft101_rust.Nft.Types.{Vote}
use nft101_rust.Nft.Payout.Profit.{weights, weights-append}
use nft101_rust.Nft.Payout.{Weights, vote_weight, next_rate, weigh_vote}

-- What the voters of a list have locked.
abbrev pub pledged : List Vote → ℕ
pledged [] = 0
pledged (v ∷ vs) = v.amount + pledged vs

module _ {O L F N : Type 0} (h : Host O L F N) (fix_rate blocks day stock : N) (bound : ℕ) where
  open h.fixed use {
    raw, scale, scale_eq, scale_positive, add, mul, div, less, raw-mul, raw-div, add_fits, mul_fits,
    div_fits,
  }

  -- The weight of a vote is a number between 1 and its amount.
  pub record Weighs (v : Vote) : Type 0 where
    pub weight : N
    pub weight_eq : vote_weight h blocks day v ≡ some weight
    pub weight_ge : scale ≤ raw weight
    pub weight_le : raw weight ≤ v.amount * scale

  -- A rate that is at most one, and above the bound.
  pub record IsRate (rate : N) : Type 0 where
    pub above : bound < raw rate * scale
    pub at_most : raw rate ≤ scale

  -- What the loop keeps: a frozen rate is a rate, and the shares are at most the weights and add up.
  pub record InBounds (w : Weights N) : Type 0 where
    pub rate_kept : (w.is_fixed ≡ false) ⊎ IsRate w.weight_rate
    pub shares_le : raw w.tt ≤ raw w.total
    pub sums : raw w.tt ≡ weights h w.vote_res

  next_rate_returns :
      (w : Weights N) (total : N)
      → InBounds w
      → bound + scale < raw stock
      → raw stock + raw total < scale * scale
      → (rate : N) × (next_rate h stock w total ≡ some rate) × IsRate rate
  unfolding next_rate
  next_rate_returns w total k big fits = elim (Bool-cases w.is_fixed) [
    | inl y ↦ elim k.rate_kept [ inl n ↦ cc | inr g ↦ (w.weight_rate, rw y refl, g) ]
    | inr n ↦
        let (grown, grown_eq, grown_raw) = add_fits stock total fits in
        let (rate, rate_eq, rate_raw) = div_fits stock grown (
          omega (
            arith,
            grown_raw,
            scale_eq,
            big,
            mul-le-mul_right {m = 2} {n = scale} (raw grown) (omega (arith, scale_eq)),
          )) in
        (
          rate,
          rw (n, grown_eq) rate_eq,
          record {
            above =
                quotient_above scale (raw stock) (raw grown) (raw rate) bound rate_raw
                  (omega (arith, grown_raw, fits)) big;
            at_most =
                quotient_le_one scale (raw stock) (raw grown) (raw rate)
                  (omega (arith, grown_raw, big)) (raw-div stock grown rate rate_eq)
                  (omega (arith, grown_raw));
          },
        )
  ]

  -- A round that returns, and what it keeps.
  pub record Goes (v : Vote) (w : Weights N) : Type 0 where
    pub w' : Weights N
    pub weigh_eq : weigh_vote h fix_rate blocks day stock v w ≡ some w'
    pub in_bounds : InBounds w'
    pub rate : IsRate w'.weight_rate
    pub total_le : raw w'.total ≤ raw w.total + v.amount * scale
    pub share_ge : bound < raw w'.tt * scale

  -- The share of a vote that earned `t` of `sum` in all, as a yearly rate.
  yield_returns :
      (t sum x : N)
      → raw t ≤ raw sum
      → 0 < raw sum
      → scale ≤ raw x
      → raw stock < scale * scale
      → (share : N) × (yield : N) × (year_rate : N) × (div t sum ≡ some share)
        × (mul share stock ≡ some yield)
        × (div yield x ≡ some year_rate)
  yield_returns t sum x le pos ge fits =
      let (share, e1, _) = div_fits t sum (
        omega (
          arith,
          scale_eq,
          le,
          pos,
          mul-le-mul_right {m = 2} {n = scale} (raw sum) (omega (arith, scale_eq)),
        )) in
      let small : raw share ≤ scale =
        quotient_le_one scale (raw t) (raw sum) (raw share) pos (raw-div t sum share e1) le in
      let (yield, e2, _) =
        mul_fits share stock
          (omega (arith, product_fits scale (raw stock) (raw share) scale_positive fits small)) in
      let below : raw yield ≤ raw stock =
        product_le scale (raw stock) (raw share) (raw yield) scale_positive
          (omega (arith, raw-mul share stock yield e2)) small in
      let (year_rate, e3, _) =
        div_fits yield x (omega (arith, below, fits, mul-le-mul_left scale ge)) in
      (share, yield, year_rate, e1, e2, e3)

  after_round : Vote → Weights N → N → N → N → N → N → Weights N
  after_round v w total rate t sum year_rate = record {
    is_fixed = if less year_rate fix_rate then true else w.is_fixed;
    total = total;
    weight_rate = rate;
    tt = sum;
    vote_res = w.vote_res ++ (v, t) ∷ [];
  }

  weigh_vote_of :
      (v : Vote) (w : Weights N) (x total rate t sum share yield year_rate : N)
      → vote_weight h blocks day v ≡ some x
      → add w.total x ≡ some total
      → next_rate h stock w total ≡ some rate
      → mul x rate ≡ some t
      → add w.tt t ≡ some sum
      → div t sum ≡ some share
      → mul share stock ≡ some yield
      → div yield x ≡ some year_rate
      → weigh_vote h fix_rate blocks day stock v w
        ≡ some (after_round v w total rate t sum year_rate)
  unfolding weigh_vote after_round
  weigh_vote_of v w x total rate t sum share yield year_rate e1 e2 e3 e4 e5 e6 e7 e8 =
      bind-some _ e1 (
        bind-some _ e2 (
          bind-some _ e3 (
            bind-some _ e4
              (bind-some _ e5 (bind-some _ e6 (bind-some _ e7 (bind-some _ e8 refl)))))))

  pub round_returns :
      (v : Vote) (w : Weights N)
      → Weighs v
      → InBounds w
      → bound + scale < raw stock
      → raw stock + raw w.total + v.amount * scale < scale * scale
      → Goes v w
  unfolding after_round
  round_returns v w weighs k big fits =
      let x = weighs.weight in
      let (total, e1, total_raw) = add_fits w.total x (omega (arith, fits, weighs.weight_le)) in
      let (rate, e2, is_rate) =
        next_rate_returns w total k big (omega (arith, total_raw, fits, weighs.weight_le)) in
      let x_fits : raw x < scale * scale = omega (arith, fits, weighs.weight_le) in
      let (t, e3, t_raw) =
        mul_fits x rate
          (product_fits scale (raw x) (raw rate) scale_positive x_fits is_rate.at_most) in
      let t_le =
        product_le scale (raw x) (raw rate) (raw t) scale_positive (raw-mul x rate t e3)
          is_rate.at_most in
      let t_ge = product_ge scale (raw x) (raw rate) (raw t) t_raw weighs.weight_ge in
      let (sum, e4, sum_raw) =
        add_fits w.tt t (omega (arith, t_le, fits, weighs.weight_le, k.shares_le)) in
      let sum_share : bound < raw sum * scale = omega (
        arith,
        is_rate.above,
        mul-le-mul_right {m = raw rate} {n = raw sum} scale (omega (arith, t_ge, sum_raw)),
      ) in
      let (share, yield, year_rate, e5, e6, e7) =
        yield_returns t sum x (omega (arith, sum_raw))
          (positive_of_mul (raw sum) scale bound sum_share) weighs.weight_ge
          (omega (arith, fits)) in
      record {
        w' = after_round v w total rate t sum year_rate;
        weigh_eq =
            weigh_vote_of v w x total rate t sum share yield year_rate weighs.weight_eq e1 e2 e3 e4
              e5 e6 e7;
        in_bounds = record {
          rate_kept = inr is_rate;
          shares_le = omega (arith, t_le, total_raw, sum_raw, k.shares_le);
          sums = omega (arith, sum_raw, k.sums, weights-append h w.vote_res ((v, t) ∷ []));
        };
        rate = is_rate;
        total_le = omega (arith, total_raw, weighs.weight_le);
        share_ge = sum_share;
      }
