-- ===== src/Nft/Trading/Earnings.antt =====
-- What the votes on an order of pallets/nft/src/lib.rs earn by the numbers of the reference, and that they are paid it.
use mathlib.Core.Option.{some-injective}
use nft101_rust.Prelude.{
  ℕ, ◌+◌, ◌^◌, ◌≤◌, ◌<◌, ◌≡◌, refl, sym, ◌∙◌, some, List, [], ◌∷◌, map, All, arith,
}
use nft101_rust.Prelude.Partial.{bind-step}
use nft101_rust.Frame.{AccountId, Host, Checked, accepted}
use nft101_rust.Nft.Types.{Vote, Order, Config}
use nft101_rust.Nft.Payout.{share_of, pay_votes, algorithm}
use nft101_rust.Nft.Payout.Rounds.{PayoutOf, algorithm-PayoutOf}
use nft101_rust.Nft.Payout.Reference.{ref_earned, ref_profit, ref_tally, ref_votes}
use nft101_rust.Nft.Payout.Reference.Votes.{Narrow, Computes, Checked-Computes, raw_share}
use nft101_rust.Nft.Payout.Reference.Shares.{earned_exact}
use nft101_rust.Nft.Payout.Reference.Payments.{tally_exact, profit_exact}
use nft101_rust.Nft.Backing.{votes_held}
use nft101_rust.Nft.Trading.Paying.{PaidOut, dues, payout_pays}

module _ {O L F N : Type 0} (h : Host O L F N) where
  open h.fixed use {raw, scale}
  open h.currency use {free_balance, reserved_balance, transfer}

  -- A vote of weight `t` among weights that add up to `sum` earns its part of the profit, rounded down.
  abbrev pub earning : ℕ → ℕ → Vote × ℕ → Vote × ℕ
  earning profit sum (v, t) = (v, h.u128_to_balance (ref_earned scale (λ n. n) profit sum t))

  -- What each of the votes earns, from the two rates, the blocks of a day and of the auction, and the price.
  abbrev pub earnings : ℕ → ℕ → ℕ → ℕ → ℕ → List Vote → List (Vote × ℕ)
  earnings fix_rate rate blocks keep price votes =
      let tally = ref_tally scale (λ n. n) fix_rate rate blocks keep price votes in
      map (earning (ref_profit scale (λ n. n) rate price) tally.tt) tally.shares

  -- What a payout that returns pays is what the votes earn.
  dues_exact :
      Computes h.fixed (λ n. n)
      → (seller : AccountId) (profit sum : N) (rest : List (Vote × N)) (l paid : L)
      → pay_votes h seller profit sum rest l ≡ some paid
      → dues h profit sum rest ≡ map (earning (raw profit) (raw sum)) (map (raw_share h) rest)
  unfolding pay_votes
  dues_exact computes seller profit sum [] l paid e = refl
  dues_exact computes seller profit sum ((v, t) ∷ rest) l paid e =
      bind-step (share_of h profit sum t) e λ amount e1 e2.
        rw
          (
            e1,
            earned_exact h (λ n. n) computes profit sum t amount e1,
            dues_exact computes seller profit sum rest _ paid e2,
          )
          refl

  earnings_exact :
      Checked h.fixed
      → (c : Config F) (order : Order) (price : ℕ) (votes : List Vote) (l paid : L)
        (fix_rate rate : N)
      → All Narrow votes
      → price < 2 ^ 128
      → order.keep_block_num < 2 ^ 128
      → c.day_block_num < 2 ^ 128
      → h.fixed.from_float c.fix_rate ≡ some fix_rate
      → h.fixed.from_float c.profit_rate ≡ some rate
      → (out : PayoutOf h c order price votes l paid)
      → dues h out.profit_amount out.w.tt out.w.vote_res
        ≡ earnings (raw fix_rate) (raw rate) c.day_block_num order.keep_block_num price votes
  earnings_exact k c order price votes l paid fix_rate rate narrow price_lt keep_lt blocks_lt ef er
        out =
      let computes = Checked-Computes h.fixed k in
      let agrees =
        tally_exact h (λ n. n) computes c order price votes l paid narrow price_lt keep_lt blocks_lt
          out in
      let fix_eq : out.p.fix_rate ≡ fix_rate = some-injective _ _ (sym out.terms_of.fix_eq ∙ ef) in
      let rate_eq : out.p.profit_rate ≡ rate =
        some-injective _ _ (sym out.terms_of.profit_eq ∙ er) in
      let profit_eq =
        profit_exact h (λ n. n) computes c order price votes l paid price_lt keep_lt blocks_lt
          out in
      rw (← fix_eq, ← rate_eq, ← profit_eq, ← agrees.tt_eq, ← agrees.shares_eq)
        (dues_exact computes order.owner out.profit_amount out.w.tt out.w.vote_res l paid
          out.paid_eq)

  -- In a build with overflow checks, where the ledger accepts every transfer that leaves the sender with a smallest
  -- balance to a receiver that has one, each vote locks as much and is reserved, the seller has that and the price, the
  -- profit rate is at most one, and votes, price and times are of at most 128 bits: a payout that returns gives every
  -- voter back what is locked and pays what each vote earns by the reference, its part of `profit_rate * price` by its
  -- weight, rounded down; out of the seller's account and of no other; all of it is at most the voters' part of the
  -- price.
  pub voters_paid :
      (minimum : ℕ)
      → ((from to amount : ℕ) (l : L)
          → amount + minimum ≤ free_balance from l
          → minimum ≤ free_balance to l
          → (l' : L) × (transfer from to amount l ≡ accepted l'))
      → (c : Config F) (order : Order) (price : ℕ) (votes : List Vote) (l paid : L)
        (fix_rate rate : N)
      → Checked h.fixed
      → h.fixed.from_float c.fix_rate ≡ some fix_rate
      → h.fixed.from_float c.profit_rate ≡ some rate
      → raw rate ≤ scale
      → price + minimum ≤ free_balance order.owner l
      → ((a : AccountId) → votes_held a votes ≤ reserved_balance a l)
      → All (λ (v : Vote). minimum ≤ v.amount) votes
      → All Narrow votes
      → price < 2 ^ 128
      → order.keep_block_num < 2 ^ 128
      → c.day_block_num < 2 ^ 128
      → algorithm h c order price votes l ≡ some paid
      → PaidOut h order.owner
          (raw rate)
          price
          votes
          (earnings (raw fix_rate) (raw rate) c.day_block_num order.keep_block_num price votes)
          l
          paid
  unfolding algorithm ref_votes
  voters_paid minimum accepts c order price [] l paid fix_rate rate k ef er part rich enough large
        narrow price_lt keep_lt blocks_lt e =
      record {
        of_votes = refl;
        bounded = omega arith;
        balances = λ a. ground (arith, some-injective _ _ e);
      }
  voters_paid minimum accepts c order price (v ∷ vs) l paid fix_rate rate k ef er part rich enough
        large narrow price_lt keep_lt blocks_lt e =
      let out = algorithm-PayoutOf h c order price v vs l paid e in
      rw
        (← earnings_exact k c order price (v ∷ vs) l paid fix_rate rate narrow price_lt keep_lt
          blocks_lt ef er out)
        (payout_pays h minimum accepts c order price v vs l paid rate k er part rich enough large
          out)
