-- ===== src/Nft/Payout/Reference/Shares.antt =====
-- The payments of `Module::algorithm` of pallets/nft/src/lib.rs against their reference.
use nft101_rust.Prelude.{ℕ, ◌/◌, ◌≡◌, refl, sym, some, List, [], ◌∷◌, map}
use mathlib.Core.Option.{some-injective}
use nft101_rust.Prelude.Rounding.{quotient_exact}
use nft101_rust.Prelude.Partial.{bind-step}
use nft101_rust.Frame.{AccountId, Host}
use nft101_rust.Nft.Types.{Vote}
use nft101_rust.Nft.Payout.{share_of, pay_votes}
use nft101_rust.Nft.Payout.Rounds.{ShareOf, share_of-ShareOf}
use nft101_rust.Nft.Payout.Reference.{ref_earned, ref_pay}
use nft101_rust.Nft.Payout.Reference.Votes.{Computes, raw_share}

module _ {O L F N : Type 0} (h : Host O L F N) (fit : ℕ → ℕ) (computes : Computes h.fixed fit) where
  open h.fixed use {raw, scale, raw-floor, floor-lower}

  pub earned_exact :
      (profit sum t : N) (amount : ℕ)
      → share_of h profit sum t ≡ some amount
      → h.u128_to_balance (ref_earned scale fit (raw profit) (raw sum) (raw t)) ≡ amount
  earned_exact profit sum t amount e =
      let g : ShareOf h profit sum t amount = share_of-ShareOf h profit sum t amount e in
      let whole_eq : g.whole ≡ raw g.share / scale =
        quotient_exact (raw g.share) scale g.whole (raw-floor g.share g.whole g.whole_eq)
          (floor-lower g.share g.whole g.whole_eq) in
      rw
        (
          ← g.amount_eq,
          whole_eq,
          computes.raw-mul g.unit t g.share g.share_eq,
          computes.raw-div profit sum g.unit g.unit_eq,
        )
        refl

  pub pay_votes_reference :
      (seller : AccountId) (profit sum : N) (rest : List (Vote × N)) (l paid : L)
      → pay_votes h seller profit sum rest l ≡ some paid
      → paid
        ≡ ref_pay h seller (ref_earned scale fit (raw profit) (raw sum)) (map (raw_share h) rest) l
  unfolding pay_votes ref_pay
  pay_votes_reference seller profit sum [] l paid e = sym (some-injective _ _ e)
  pay_votes_reference seller profit sum ((v, t) ∷ rest) l paid e =
      bind-step (share_of h profit sum t) e λ amount e1 e2.
        rw (ref_pay, earned_exact profit sum t amount e1)
          (pay_votes_reference seller profit sum rest _ paid e2)
