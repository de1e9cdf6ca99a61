-- ===== src/Nft/Payout/Rate.antt =====
-- The exchange rate of `Module::algorithm` of pallets/nft/src/lib.rs.
use nft101_rust.Prelude.{
  ◌*◌, ◌≤◌, ◌≡◌, true, false, Bool-cases, some, inl, inr, ◌⊎◌, sym, ◌∙◌, List, [], ◌∷◌, arith,
}
use mathlib.Core.Option.{some-injective}
use nft101_rust.Prelude.Partial.{bind-step}
use nft101_rust.Prelude.Rounding.{quotient_antitone}
use nft101_rust.Frame.{Host, Checked}
use nft101_rust.Nft.Types.{Vote}
use nft101_rust.Nft.Payout.{Weights, next_rate, weigh_vote, weigh_votes}
use nft101_rust.Nft.Payout.Rounds.{Round, weigh_vote-Round}

module _ {O L F N : Type 0} (h : Host O L F N) (fix_rate blocks day stock : N) where
  open h.fixed use {add, div}

  -- A round from a frozen state keeps the rate, and one from another state prices its own.
  next_rate_cases :
      (w : Weights N) (total rate : N)
      → next_rate h stock w total ≡ some rate
      → ((w.is_fixed ≡ true) × (rate ≡ w.weight_rate))
        ⊎ ((w.is_fixed ≡ false)
            × ((grown : N) × (add stock total ≡ some grown) × (div stock grown ≡ some rate)))
  unfolding next_rate
  next_rate_cases w total rate e = elim (Bool-cases w.is_fixed) [
    | inl y ↦ inl (y, some-injective _ _ (sym (rw y at e)))
    | inr n ↦ inr (n, bind-step (add stock total) (rw n at e) λ grown e1 e2. (grown, e1, e2))
  ]

  -- Once the yield has fallen below the fixed rate, the exchange rate stays as it is.
  pub frozen_rate :
      (vs : List Vote) (w w' : Weights N)
      → w.is_fixed ≡ true
      → weigh_votes h fix_rate blocks day stock vs w ≡ some w'
      → (w'.is_fixed ≡ true) × (w'.weight_rate ≡ w.weight_rate)
  unfolding weigh_votes
  frozen_rate [] w w' y e = ground arith
  frozen_rate (v ∷ vs) w w' y e =
      bind-step (weigh_vote h fix_rate blocks day stock v w) e λ w1 e1 rest.
        let r : Round h fix_rate blocks day stock v w w1 =
          weigh_vote-Round h fix_rate blocks day stock v w w1 e1 in
        let kept : w1.is_fixed ≡ true = ground (arith, r.fixed_eq) in
        let same : w1.weight_rate ≡ w.weight_rate =
          elim (next_rate_cases w w1.total w1.weight_rate r.rate_eq) [
            | inl (_, q) ↦ q
            | inr (n, _) ↦ cc
          ] in
        let later = frozen_rate vs w1 w' kept rest in (later.0, later.1 ∙ same)

module _ {O L F N : Type 0} (h : Host O L F N) (k : Checked h.fixed)
    (fix_rate blocks day stock : N) where
  open h.fixed use {raw, scale, add, div, raw-div}
  open k use {raw-add, div-lower}

  -- Either the rate is frozen, or it is the stock over the stock and the total so far.
  IsPriced : Weights N → Type 0
  IsPriced w =
      (w.is_fixed ≡ true)
      ⊎ ((grown : N) × (add stock w.total ≡ some grown) × (div stock grown ≡ some w.weight_rate))

  Round-IsPriced :
      (v : Vote) (w w' : Weights N) → Round h fix_rate blocks day stock v w w' → IsPriced w'
  unfolding IsPriced
  Round-IsPriced v w w' r =
      elim (next_rate_cases h fix_rate blocks day stock w w'.total w'.weight_rate r.rate_eq) [
        | inl (y, _) ↦ inl (ground (arith, r.fixed_eq))
        | inr (_, q) ↦ inr q
      ]

  Round-rate :
      (v : Vote) (w w' : Weights N)
      → IsPriced w
      → Round h fix_rate blocks day stock v w w'
      → raw w'.weight_rate ≤ raw w.weight_rate
  unfolding IsPriced
  Round-rate v w w' p r =
      elim (next_rate_cases h fix_rate blocks day stock w w'.total w'.weight_rate r.rate_eq) [
        | inl (_, same) ↦ rw same (omega arith)
        | inr (n, (grown, g1, g2)) ↦ elim p [
          | inl y ↦ cc
          | inr (before, b1, b2) ↦
              quotient_antitone (raw stock * scale) (raw before) (raw grown) (raw w.weight_rate)
                (raw w'.weight_rate) (div-lower stock before w.weight_rate b2)
                (raw-div stock grown w'.weight_rate g2)
                (omega (
                  arith,
                  raw-add stock w.total before b1,
                  raw-add stock w'.total grown g1,
                  raw-add w.total r.pre_weight w'.total r.total_eq,
                ))
        ]
      ]

  rate_falls_from :
      (vs : List Vote) (w w' : Weights N)
      → IsPriced w
      → weigh_votes h fix_rate blocks day stock vs w ≡ some w'
      → raw w'.weight_rate ≤ raw w.weight_rate
  unfolding weigh_votes
  rate_falls_from [] w w' p e = ground arith
  rate_falls_from (v ∷ vs) w w' p e =
      bind-step (weigh_vote h fix_rate blocks day stock v w) e λ w1 e1 rest.
        let r : Round h fix_rate blocks day stock v w w1 =
          weigh_vote-Round h fix_rate blocks day stock v w w1 e1 in
        omega
          (arith, Round-rate v w w1 p r, rate_falls_from vs w1 w' (Round-IsPriced v w w1 r) rest)

  -- In a build with overflow checks, from the vote after which it is first set, the exchange rate never rises: no later
  -- voter gets more for the same weight.
  pub rate_falls :
      (v : Vote) (vs : List Vote) (w w1 w2 : Weights N)
      → weigh_vote h fix_rate blocks day stock v w ≡ some w1
      → weigh_votes h fix_rate blocks day stock vs w1 ≡ some w2
      → raw w2.weight_rate ≤ raw w1.weight_rate
  rate_falls v vs w w1 w2 e1 e2 =
      rate_falls_from vs w1 w2
        (Round-IsPriced v w w1 (weigh_vote-Round h fix_rate blocks day stock v w w1 e1)) e2
