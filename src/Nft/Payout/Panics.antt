-- ===== src/Nft/Payout/Panics.antt =====
-- Where `Module::algorithm` of pallets/nft/src/lib.rs panics.
use nft101_rust.Prelude.{
  ℕ, ◌*◌, ◌≡◌, none, some, Option-cases, inl, inr, List, [], ◌∷◌, ◌⊎◌, ◌≢◌, ap, arith,
}
use native.Mathlib.Decide.{ℕ_discrete}
use nft101_rust.Prelude.Products.{zero_of_mul}
use nft101_rust.Prelude.Partial.{bind-step}
use nft101_rust.Frame.{Host}
use nft101_rust.Nft.Types.{Order, Vote, Config}
use nft101_rust.Nft.Payout.{Weights, vote_weight, weigh_vote, weigh_votes, algorithm}
use nft101_rust.Nft.Payout.Rounds.{Round, weigh_vote-Round, PayoutOf, algorithm-PayoutOf}

-- Some vote of a list was cast in the last block of its auction, with no time left.
abbrev pub HasLateVote : List Vote → Type 0
HasLateVote [] = ⊥
HasLateVote (v ∷ vs) = (v.keep_block_num ≡ 0) ⊎ HasLateVote vs

module _ {O L F N : Type 0} (h : Host O L F N) where
  open h.fixed use {
    raw, scale, scale_positive, from_int, mul, div, from_int-le, raw-mul, raw-div, div_zero,
  }

  div_nothing : (x y z : N) → raw x ≡ 0 → div x y ≡ some z → raw z ≡ 0
  div_nothing x y z nothing e = elim (ℕ_discrete (raw y) 0) [
    | yes p ↦ cc (div_zero x y p)
    | no p ↦
        zero_of_mul (raw z) (raw y) (omega arith)
          (omega (arith, raw-div x y z e, ap (λ (n : ℕ). n * scale) nothing))
  ]

  mul_nothing : (x y z : N) → raw y ≡ 0 → mul x y ≡ some z → raw z ≡ 0
  mul_nothing x y z nothing e =
      zero_of_mul (raw z) scale scale_positive
        (omega (arith, raw-mul x y z e, ap (λ (n : ℕ). raw x * n) nothing))

  block_zero : (v : Vote) → v.keep_block_num ≡ 0 → h.block_to_u128 v.keep_block_num ≡ 0
  block_zero v late = omega (arith, h.block_to_u128-le v.keep_block_num)

  -- A vote with no time left weighs nothing.
  late_weight :
      (blocks day : N) (v : Vote) (x : N)
      → v.keep_block_num ≡ 0
      → vote_weight h blocks day v ≡ some x
      → raw x ≡ 0
  unfolding vote_weight
  late_weight blocks day v x late e =
      bind-step (from_int (h.balance_to_u128 v.amount)) e λ amount _ r1.
        bind-step (from_int (h.block_to_u128 v.keep_block_num)) r1 λ keep e2 r2.
          bind-step (div keep blocks) r2 λ vote_day e3 r3.
            bind-step (mul amount vote_day) r3 λ weighted e4 r4.
              let keep_zero : raw keep ≡ 0 = omega (
                arith,
                from_int-le _ keep e2,
                h.block_to_u128-le v.keep_block_num,
                ap (λ (n : ℕ). n * scale) (block_zero v late),
              ) in
              div_nothing weighted day x
                (mul_nothing amount vote_day weighted
                  (div_nothing keep blocks vote_day keep_zero e3) e4)
                r4

  -- The loop divides by the weight of each vote.
  weigh_votes_late :
      (fix_rate blocks day stock : N) (vs : List Vote) (w w' : Weights N)
      → HasLateVote vs
      → weigh_votes h fix_rate blocks day stock vs w ≢ some w'
  unfolding weigh_votes
  weigh_votes_late fix_rate blocks day stock [] w w' late e = late
  weigh_votes_late fix_rate blocks day stock (v ∷ vs) w w' (inl now) e =
      bind-step (weigh_vote h fix_rate blocks day stock v w) e λ w1 e1 _.
        let r : Round h fix_rate blocks day stock v w w1 =
          weigh_vote-Round h fix_rate blocks day stock v w w1 e1 in
        cc (
          div_zero r.yield r.pre_weight (late_weight blocks day v r.pre_weight now r.weight_eq),
          r.year_eq,
        )
  weigh_votes_late fix_rate blocks day stock (v ∷ vs) w w' (inr later) e =
      bind-step (weigh_vote h fix_rate blocks day stock v w) e
        λ w1 _ rest. weigh_votes_late fix_rate blocks day stock vs w1 w' later rest

  -- If any vote of an order was cast in the last block of its auction, with no blocks left, the payout of a sale at any
  -- price panics.
  pub algorithm_late :
      (c : Config F) (order : Order) (price : ℕ) (votes : List Vote) (l : L)
      → HasLateVote votes
      → algorithm h c order price votes l ≡ none
  algorithm_late c order price [] l late = absurd late
  algorithm_late c order price (v ∷ vs) l late =
      elim (Option-cases (algorithm h c order price (v ∷ vs) l)) [
        | inl e ↦ e
        | inr (paid, e) ↦
            let out : PayoutOf h c order price (v ∷ vs) l paid =
              algorithm-PayoutOf h c order price v vs l paid e in
            absurd (weigh_votes_late _ _ _ _ (v ∷ vs) _ out.w late out.weights_eq)
      ]
