-- ===== src/Nft/Payout/Reference/Votes.antt =====
-- The loop over the votes in `Module::algorithm` of pallets/nft/src/lib.rs against its reference.
use nft101_rust.Prelude.{
  ℕ, ◌*◌, ◌^◌, ◌<◌, ◌≡◌, refl, sym, ap, subst, Bool-cases, inl, inr, some, List, [], ◌∷◌, map, All,
}
use mathlib.Core.List.{map-append}
use mathlib.Core.Option.{some-injective}
use nft101_rust.Prelude.Rounding.{quotient_exact}
use nft101_rust.Prelude.Partial.{bind-step}
use nft101_rust.Frame.{Fixed, Checked, Host}
use nft101_rust.Nft.Types.{Vote}
use nft101_rust.Nft.Payout.{Weights, vote_weight, next_rate, weigh_vote, weigh_votes}
use nft101_rust.Nft.Payout.Rounds.{Round, weigh_vote-Round}
use nft101_rust.Nft.Payout.Reference.{
  Tally, ref_int, ref_add, ref_mul, ref_div, ref_weight, ref_rate, ref_year, ref_share, ref_round,
  ref_votes,
}

-- The operations of the code round down, and then do what the build does.
pub record Computes {F N : Type 0} (f : Fixed F N) (fit : ℕ → ℕ) : Type 0 where
  pub raw-from_int : (n : ℕ) (x : N) → f.from_int n ≡ some x → f.raw x ≡ ref_int f.scale fit n
  pub raw-add : (x y z : N) → f.add x y ≡ some z → f.raw z ≡ ref_add f.scale fit (f.raw x) (f.raw y)
  pub raw-mul : (x y z : N) → f.mul x y ≡ some z → f.raw z ≡ ref_mul f.scale fit (f.raw x) (f.raw y)
  pub raw-div : (x y z : N) → f.div x y ≡ some z → f.raw z ≡ ref_div f.scale fit (f.raw x) (f.raw y)

-- With overflow checks nothing is done.
pub Checked-Computes : {F N : Type 0} (f : Fixed F N) → Checked f → Computes f (λ n. n)
Checked-Computes f k = record {
  raw-from_int = k.raw-from_int;
  raw-add = k.raw-add;
  raw-mul = λ x y z e.
      quotient_exact (f.raw x * f.raw y) f.scale (f.raw z) (f.raw-mul x y z e)
        (k.mul-lower x y z e);
  raw-div = λ x y z e.
      quotient_exact (f.raw x * f.scale) (f.raw y) (f.raw z) (f.raw-div x y z e)
        (k.div-lower x y z e);
}

-- The numbers of a vote are of at most 128 bits.
pub record Narrow (v : Vote) : Type 0 where
  pub amount_lt : v.amount < 2 ^ 128
  pub blocks_lt : v.keep_block_num < 2 ^ 128

module _ {O L F N : Type 0} (h : Host O L F N) where
  open h.fixed use {raw}

  abbrev pub raw_share : Vote × N → Vote × ℕ
  raw_share (v, t) = (v, raw t)

  -- The loop and the reference have come to the same numbers.
  pub record Agrees (w : Weights N) (y : Tally) : Type 0 where
    pub fixed_eq : w.is_fixed ≡ y.is_fixed
    pub total_eq : raw w.total ≡ y.total
    pub rate_eq : raw w.weight_rate ≡ y.weight_rate
    pub tt_eq : raw w.tt ≡ y.tt
    pub shares_eq : map raw_share w.vote_res ≡ y.shares

module _ {O L F N : Type 0} (h : Host O L F N) (fit : ℕ → ℕ) (c : Computes h.fixed fit) where
  open h.fixed use {raw, scale, from_int, add, mul, div, less-raw}

  vote_weight_exact :
      (blocks day : N) (v : Vote) (x : N)
      → Narrow v
      → vote_weight h blocks day v ≡ some x
      → raw x ≡ ref_weight scale fit 0 (raw blocks) (raw day) 0 v
  unfolding vote_weight
  vote_weight_exact blocks day v x narrow e =
      bind-step (from_int (h.balance_to_u128 v.amount)) e λ amount e1 r1.
        bind-step (from_int (h.block_to_u128 v.keep_block_num)) r1 λ left e2 r2.
          bind-step (div left blocks) r2 λ vote_day e3 r3.
            bind-step (mul amount vote_day) r3 λ weighted e4 r4.
              rw
                (
                  c.raw-div weighted day x r4,
                  c.raw-mul amount vote_day weighted e4,
                  c.raw-div left blocks vote_day e3,
                  c.raw-from_int _ amount e1,
                  c.raw-from_int _ left e2,
                  h.balance_to_u128-eq v.amount narrow.amount_lt,
                  h.block_to_u128-eq v.keep_block_num narrow.blocks_lt,
                )
                refl

  next_rate_exact :
      (stock : N) (w : Weights N) (y : Tally) (total rate : N)
      → Agrees h w y
      → next_rate h stock w total ≡ some rate
      → raw rate ≡ ref_rate scale fit 0 0 0 (raw stock) y.is_fixed y.weight_rate (raw total)
  unfolding next_rate
  next_rate_exact stock w y total rate k e = elim (Bool-cases w.is_fixed) [
    | inl yes_fixed ↦
        rw (← k.fixed_eq, yes_fixed, ← k.rate_eq)
          (ap raw (some-injective _ _ (sym (rw yes_fixed at e))))
    | inr not_fixed ↦
        rw (← k.fixed_eq, not_fixed)
          (bind-step (add stock total) (rw not_fixed at e)
            λ grown e1 r1. rw (c.raw-div stock grown rate r1, c.raw-add stock total grown e1) refl)
  ]

  Round-Agrees :
      (fix_rate blocks day stock : N) (v : Vote) (w w' : Weights N) (y : Tally)
      → Agrees h w y
      → (r : Round h fix_rate blocks day stock v w w')
      → Agrees h w' (
          ref_round scale fit
            (raw fix_rate)
            (raw blocks)
            (raw day)
            (raw stock)
            v
            (raw r.pre_weight)
            y)
  Round-Agrees fix_rate blocks day stock v w w' y k r =
      let total_eq : raw w'.total ≡ ref_add scale fit y.total (raw r.pre_weight) =
        rw (c.raw-add _ _ _ r.total_eq, k.total_eq) refl in
      let rate_eq : raw w'.weight_rate
          ≡ ref_rate scale fit (raw fix_rate) (raw blocks) (raw day) (raw stock) y.is_fixed
              y.weight_rate (ref_add scale fit y.total (raw r.pre_weight)) =
        rw (next_rate_exact stock w y w'.total w'.weight_rate k r.rate_eq, total_eq) refl in
      let t_eq : raw r.t
          ≡ ref_share scale fit (raw fix_rate) (raw blocks) (raw day) (raw stock) y
              (raw r.pre_weight) =
        rw (c.raw-mul _ _ _ r.t_eq, rate_eq) refl in
      let tt_eq : raw w'.tt
          ≡ ref_add scale fit y.tt (
              ref_share scale fit (raw fix_rate) (raw blocks) (raw day) (raw stock) y
                (raw r.pre_weight)) =
        rw (c.raw-add _ _ _ r.tt_eq, k.tt_eq, t_eq) refl in
      let year_eq : raw r.year_rate
          ≡ ref_year scale fit (raw fix_rate) (raw blocks) (raw day) (raw stock) (raw r.t)
              (raw w'.tt) (raw r.pre_weight) =
        rw (c.raw-div _ _ _ r.year_eq, c.raw-mul _ _ _ r.yield_eq, c.raw-div _ _ _ r.share_eq)
          refl in
      record {
        fixed_eq =
            rw (r.fixed_eq, less-raw r.year_rate fix_rate, year_eq, tt_eq, t_eq, k.fixed_eq) refl;
        total_eq = total_eq;
        rate_eq = rate_eq;
        tt_eq = tt_eq;
        shares_eq =
            rw (r.res_eq, map-append (raw_share h) w.vote_res ((v, r.t) ∷ []), k.shares_eq, t_eq)
              refl;
      }

  -- If the loop over votes of at most 128 bits returns from where it agrees with the reference,
  -- it comes to exactly the numbers of the reference.
  pub weigh_votes_reference :
      (fix_rate blocks day stock : N) (vs : List Vote) (w w' : Weights N) (y : Tally)
      → All Narrow vs
      → Agrees h w y
      → weigh_votes h fix_rate blocks day stock vs w ≡ some w'
      → Agrees h w' (ref_votes scale fit (raw fix_rate) (raw blocks) (raw day) (raw stock) vs y)
  unfolding weigh_votes ref_votes
  weigh_votes_reference fix_rate blocks day stock [] w w' y all k e =
      subst (λ (x : Weights N). Agrees h x y) (some-injective _ _ e) k
  weigh_votes_reference fix_rate blocks day stock (v ∷ vs) w w' y all k e =
      bind-step (weigh_vote h fix_rate blocks day stock v w) e λ w1 e1 rest.
        let r : Round h fix_rate blocks day stock v w w1 =
          weigh_vote-Round h fix_rate blocks day stock v w w1 e1 in
        let x_eq = vote_weight_exact blocks day v r.pre_weight all.0 r.weight_eq in
        weigh_votes_reference fix_rate blocks day stock vs w1 w' _ all.1
          (subst
            (λ (x : ℕ).
              Agrees h w1
                (ref_round scale fit (raw fix_rate) (raw blocks) (raw day) (raw stock) v x y))
            x_eq (Round-Agrees fix_rate blocks day stock v w w1 y k r))
          rest
