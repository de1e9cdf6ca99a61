-- ===== src/Nft/Payout/Returns.antt =====
-- When the loops of `Module::algorithm` of pallets/nft/src/lib.rs do not panic.
use nft101_rust.Prelude.{
  ℕ, ◌+◌, ◌*◌, ◌≤◌, ◌<◌, ◌≡◌, refl, ◌≢◌, some, inl, inr, ◌⊎◌, List, [], ◌∷◌, All, arith,
}
use native.Mathlib.Nat.{mul-le-mul_left, mul-le-mul_right}
use nft101_rust.Prelude.Partial.{bind-some}
use nft101_rust.Frame.{AccountId, Host}
use nft101_rust.Nft.Types.{Vote}
use nft101_rust.Nft.Payout.Profit.{weights}
use nft101_rust.Nft.Payout.{Weights, weigh_votes, share_of, pay_votes, ignoring}
use nft101_rust.Nft.Payout.Within.{pledged, Weighs, InBounds, Goes, round_returns}

module _ {O L F N : Type 0} (h : Host O L F N) (fix_rate blocks day stock : N) (bound : ℕ) where
  open h.fixed use {raw, scale}

  -- All rounds return, if the weights fit beside the stock.
  pub weigh_votes_returns :
      (vs : List Vote) (w : Weights N)
      → All (Weighs h fix_rate blocks day stock bound) vs
      → InBounds h fix_rate blocks day stock bound w
      → bound + scale < raw stock
      → raw stock + raw w.total + pledged vs * scale < scale * scale
      → (vs ≢ []) ⊎ (bound < raw w.tt * scale)
      → (w' : Weights N) × (weigh_votes h fix_rate blocks day stock vs w ≡ some w')
        × (bound < raw w'.tt * scale)
        × (raw w'.tt ≡ weights h w'.vote_res)
  unfolding weigh_votes
  weigh_votes_returns [] w all k big fits (inl p) = absurd (p refl)
  weigh_votes_returns [] w all k big fits (inr p) = (w, refl, p, k.sums)
  weigh_votes_returns (v ∷ vs) w all k big fits p =
      let g : Goes h fix_rate blocks day stock bound v w =
        round_returns h fix_rate blocks day stock bound v w all.0 k big (omega (arith, fits)) in
      let (w', e, high, low) =
        weigh_votes_returns vs g.w' all.1 g.in_bounds big (omega (arith, fits, g.total_le))
          (inr g.share_ge) in
      (w', bind-some _ g.weigh_eq e, high, low)

module _ {O L F N : Type 0} (h : Host O L F N) (seller : AccountId) (profit sum : N) where
  open h.fixed use {
    raw, scale, scale_positive, scale_eq, mul, div, raw-div, mul_fits, div_fits, floor_fits,
  }

  share_returns :
      (t : N)
      → raw profit < raw sum * scale
      → raw profit < scale * scale
      → raw t ≤ raw sum
      → (amount : ℕ) × (share_of h profit sum t ≡ some amount)
  unfolding share_of
  share_returns t small fits le =
      let (unit, e1, _) = div_fits profit sum (omega (arith, small)) in
      let (share, e2, _) = mul_fits unit t (
        omega (
          arith,
          raw-div profit sum unit e1,
          mul-le-mul_left (raw unit) le,
          mul-le-mul_right {m = raw profit + 1} {n = scale * scale} scale (omega (arith, fits)),
          scale_positive,
        )) in
      let (amount, e3) = floor_fits share in
      (h.u128_to_balance amount, bind-some _ e1 (bind-some _ e2 (bind-some _ e3 refl)))

  -- The second loop returns on every list of results that add up to the sum at most.
  pub pay_votes_returns :
      (rest : List (Vote × N)) (l : L)
      → raw profit < raw sum * scale
      → raw profit < scale * scale
      → weights h rest ≤ raw sum
      → (paid : L) × (pay_votes h seller profit sum rest l ≡ some paid)
  unfolding pay_votes
  pay_votes_returns [] l small fits le = (l, refl)
  pay_votes_returns ((v, t) ∷ rest) l small fits le =
      let (amount, e) = share_returns t small fits (omega (arith, le)) in
      let (paid, e') =
        pay_votes_returns rest
          (ignoring (h.currency.unreserve v.owner v.amount l)
            (h.currency.transfer seller v.owner amount (h.currency.unreserve v.owner v.amount l)))
          small fits (omega (arith, le)) in
      (paid, bind-some _ e e')
