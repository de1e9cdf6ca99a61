-- ===== src/Nft/Mock/Payouts.antt =====
-- The payouts of pallets/nft/src/lib.rs in the runtime of pallets/nft/src/mock.rs.
use nft101_rust.Prelude.{
  ℕ, ◌*◌, ◌≡◌, ◌≢◌, refl, none, Option-cases, inl, inr, List, [], ◌∷◌, ap, arith,
}
use nft101_rust.Frame.{Host}
use nft101_rust.Nft.Types.{Order, Vote}
use nft101_rust.Nft.Payout.{algorithm}
use nft101_rust.Nft.Payout.Rounds.{PayoutOf, algorithm-PayoutOf}
use nft101_rust.Nft.Mock.{mock_config}

no_blocks : {O L F N : Type 0} (h : Host O L F N) → h.block_to_u128 0 ≡ 0
no_blocks h = omega (arith, h.block_to_u128-le 0)

module _ {O L F N : Type 0} (h : Host O L F N) (default_float : F) where
  open h.fixed use {raw, scale, from_int-le, div_zero}

  -- In the runtime of the tests a day has no blocks, and the payout of every sale with a vote panics on the division
  -- by it.
  pub mock_payout_panics :
      (order : Order) (price : ℕ) (votes : List Vote) (l : L)
      → votes ≢ []
      → algorithm h (mock_config default_float) order price votes l ≡ none
  unfolding mock_config
  mock_payout_panics order price [] l some_vote = absurd (some_vote refl)
  mock_payout_panics order price (v ∷ vs) l some_vote =
      elim (Option-cases (algorithm h (mock_config default_float) order price (v ∷ vs) l)) [
        | inl e ↦ e
        | inr (paid, e) ↦
            let out : PayoutOf h (mock_config default_float) order price (v ∷ vs) l paid =
              algorithm-PayoutOf h (mock_config default_float) order price v vs l paid e in
            let none_left : raw out.p.day_block_num ≡ 0 = omega (
              arith,
              from_int-le _ _ out.terms_of.blocks_eq,
              h.block_to_u128-le 0,
              ap (λ (n : ℕ). n * scale) (no_blocks h),
            ) in
            cc (div_zero out.terms_of.block_num out.p.day_block_num none_left, out.terms_of.day_eq)
      ]
