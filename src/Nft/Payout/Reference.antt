-- ===== src/Nft/Payout/Reference.antt =====
-- `Module::algorithm` of pallets/nft/src/lib.rs on natural numbers: each fixed-point number is its raw number, and each
-- operation of `U64F64` is rounded down, up to what a build does with a result that does not fit.
pub mod Votes
pub mod Shares
pub mod Payments
use nft101_rust.Prelude.{
  ℕ, ◌+◌, ◌*◌, ◌/◌, Bool, true, false, List, [], ◌∷◌, ◌++◌, ltb, if◌then◌else◌,
}
use nft101_rust.Frame.{AccountId, Host}
use nft101_rust.Nft.Types.{Vote}
use nft101_rust.Nft.Payout.{ignoring}

-- What the loop keeps.
pub record Tally : Type 0 where
  pub is_fixed : Bool
  pub total : ℕ
  pub weight_rate : ℕ
  pub tt : ℕ
  pub shares : List (Vote × ℕ)

-- The operations on raw numbers of a scale. `fit` is what a build does with a result: nothing if it checks for an
-- overflow, else a remainder.
module _ (scale : ℕ) (fit : ℕ → ℕ) where
  abbrev pub ref_int : ℕ → ℕ
  ref_int n = fit (n * scale)

  abbrev pub ref_add : ℕ → ℕ → ℕ
  ref_add x y = fit (x + y)

  abbrev pub ref_mul : ℕ → ℕ → ℕ
  ref_mul x y = fit (x * y / scale)

  abbrev pub ref_div : ℕ → ℕ → ℕ
  ref_div x y = fit (x * scale / y)

  -- The reference, for the rate that is fixed, the blocks of a day, the days of the auction and the stock.
  module _ (fix_rate blocks day stock : ℕ) where
    abbrev pub ref_weight : Vote → ℕ
    ref_weight v =
        ref_div (ref_mul (ref_int v.amount) (ref_div (ref_int v.keep_block_num) blocks)) day

    abbrev pub ref_rate : Bool → ℕ → ℕ → ℕ
    ref_rate is_fixed rate total = if is_fixed then rate else ref_div stock (ref_add stock total)

    -- The yearly rate of a vote of weight `x` that earns `t` of `sum`.
    abbrev pub ref_year : ℕ → ℕ → ℕ → ℕ
    ref_year t sum x = ref_div (ref_mul (ref_div t sum) stock) x

    abbrev pub ref_share : Tally → ℕ → ℕ
    ref_share y x = ref_mul x (ref_rate y.is_fixed y.weight_rate (ref_add y.total x))

    abbrev pub ref_round : Vote → ℕ → Tally → Tally
    ref_round v x y = record {
      is_fixed =
          if ltb (ref_year (ref_share y x) (ref_add y.tt (ref_share y x)) x) fix_rate
          then true
          else y.is_fixed;
      total = ref_add y.total x;
      weight_rate = ref_rate y.is_fixed y.weight_rate (ref_add y.total x);
      tt = ref_add y.tt (ref_share y x);
      shares = y.shares ++ (v, ref_share y x) ∷ [];
    }

    unfoldable pub ref_votes : List Vote → Tally → Tally
    ref_votes [] y = y
    ref_votes (v ∷ vs) y = ref_votes vs (ref_round v (ref_weight v) y)

-- What the loops start from: the price, the blocks of the auction and of a day, and the rate of profit.
module _ (scale : ℕ) (fit : ℕ → ℕ) where
  -- The days of the auction.
  abbrev pub ref_day : ℕ → ℕ → ℕ
  ref_day keep blocks = ref_div scale fit (ref_int scale fit keep) (ref_int scale fit blocks)

  -- The profit of a year at the pace of the auction.
  abbrev pub ref_stock : ℕ → ℕ → ℕ → ℕ
  ref_stock price rate day =
      ref_mul scale fit (ref_div scale fit (ref_mul scale fit (ref_int scale fit price) rate) day)
        (ref_int scale fit 365)

  -- The part of the price that the voters get.
  abbrev pub ref_profit : ℕ → ℕ → ℕ
  ref_profit rate price = ref_mul scale fit rate (ref_int scale fit price)

  -- What a vote of weight `t` earns of a profit over weights that add up to `sum`.
  abbrev pub ref_earned : ℕ → ℕ → ℕ → ℕ
  ref_earned profit sum t = ref_mul scale fit (ref_div scale fit profit sum) t / scale

  abbrev pub no_tally : Tally
  no_tally = record {
    is_fixed = false;
    total = ref_int scale fit 0;
    weight_rate = ref_int scale fit 0;
    tt = ref_int scale fit 0;
    shares = [];
  }

  -- The state of the loop after all votes.
  abbrev pub ref_tally : ℕ → ℕ → ℕ → ℕ → ℕ → List Vote → Tally
  ref_tally fix_rate rate blocks keep price votes =
      ref_votes scale fit fix_rate (ref_int scale fit blocks) (ref_day keep blocks)
        (ref_stock price rate (ref_day keep blocks)) votes no_tally

module _ {O L F N : Type 0} (h : Host O L F N) where
  -- Each vote is unlocked, and then the seller pays it if that payment is accepted.
  unfoldable pub ref_pay : AccountId → (ℕ → ℕ) → List (Vote × ℕ) → L → L
  ref_pay seller earned [] l = l
  ref_pay seller earned ((vote, t) ∷ rest) l =
      let unlocked = h.currency.unreserve vote.owner vote.amount l in
      ref_pay seller earned rest (
        ignoring unlocked
          (h.currency.transfer seller vote.owner (h.u128_to_balance (earned t)) unlocked))

  -- All of it, in a build that does `fit` with a result.
  unfoldable pub ref_algorithm : (ℕ → ℕ) → ℕ → ℕ → ℕ → ℕ → AccountId → ℕ → List Vote → L → L
  ref_algorithm fit fix_rate rate blocks keep seller price votes l =
      let tally = ref_tally h.fixed.scale fit fix_rate rate blocks keep price votes in
      ref_pay seller
        (ref_earned h.fixed.scale fit (ref_profit h.fixed.scale fit rate price) tally.tt)
        tally.shares l
