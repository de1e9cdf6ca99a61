-- ===== src/Nft/Trading/Paying.antt =====
-- Whom the second loop of `Module::algorithm` of pallets/nft/src/lib.rs pays, where it drops the results of its transfers.
use native.Mathlib.Nat.{mul-le-mul_right, le_of_mul-le-mul_left}
use mathlib.Core.Option.{some-injective}
use nft101_rust.Prelude.{
  ℕ, ◌+◌, ◌*◌, ◌≤◌, ◌≡◌, refl, ap, ◌∙◌, Option, none, some, List, [], ◌∷◌, map, All, arith,
}
use nft101_rust.Prelude.Partial.{bind-step}
use nft101_rust.Frame.{AccountId, Host, Checked, only, Reply, accepted, refused}
use nft101_rust.Nft.Types.{Vote, Order, Config}
use nft101_rust.Nft.Payout.{share_of, pay_votes, ignoring, no_weights}
use nft101_rust.Nft.Payout.Rounds.{PayoutOf, share_of-ShareOf}
use nft101_rust.Nft.Payout.Profit.{weights, share_bound, part_of_price}
use nft101_rust.Nft.Backing.{votes_held}
use nft101_rust.Nft.Backing.Unlocking.{voters, weigh_votes-voters, unreserve_exact}

-- What the votes earn in all, and what they earn for an account.
abbrev pub total_earned : List (Vote × ℕ) → ℕ
total_earned [] = 0
total_earned ((v, n) ∷ rest) = n + total_earned rest

abbrev pub earned_by : AccountId → List (Vote × ℕ) → ℕ
earned_by a [] = 0
earned_by a ((v, n) ∷ rest) = only a v.owner n + earned_by a rest

abbrev pub vote_of : Vote × ℕ → Vote
vote_of (v, n) = v

-- An account before and after its vote was unlocked, the seller has paid what it earned, and has paid the others.
add_dues :
    (seller who a n more before unlocked paid after held amount earned : ℕ)
    → unlocked ≡ before + only a who amount
    → paid + only a seller n ≡ unlocked + only a who n
    → after + only a seller more ≡ paid + held + earned
    → after + only a seller (n + more)
      ≡ before + (only a who amount + held) + (only a who n + earned)
add_dues seller who a n more before unlocked paid after held amount earned h1 h2 h3 =
    ground (arith, h1, h2, h3)

module _ {O L F N : Type 0} (h : Host O L F N) where
  open h.fixed use {raw, scale, scale_positive}
  open h.currency use {
    free_balance, reserved_balance, transfer, unreserve, unreserve_moves, transfer_moves,
  }

  abbrev pub or_zero : Option ℕ → ℕ
  or_zero none = 0
  or_zero (some n) = n

  abbrev pub dues : N → N → List (Vote × N) → List (Vote × ℕ)
  dues profit sum [] = []
  dues profit sum ((v, t) ∷ rest) = (v, or_zero (share_of h profit sum t)) ∷ dues profit sum rest

  dues-voters :
      (profit sum : N) (rest : List (Vote × N)) → map vote_of (dues profit sum rest) ≡ voters h rest
  dues-voters profit sum [] = refl
  dues-voters profit sum ((v, t) ∷ rest) = ap (◌∷◌ v) (dues-voters profit sum rest)

  -- The dues are at most the profit by the weights.
  dues_bound :
      (seller : AccountId) (profit sum : N) (rest : List (Vote × N)) (l l' : L)
      → pay_votes h seller profit sum rest l ≡ some l'
      → total_earned (dues profit sum rest) * (scale * raw sum) ≤ raw profit * weights h rest
  unfolding pay_votes
  dues_bound seller profit sum [] l l' e = omega arith
  dues_bound seller profit sum ((v, t) ∷ rest) l l' e =
      bind-step (share_of h profit sum t) e λ amount e1 e2. rw e1 (
        omega (
          arith,
          share_bound h profit sum t amount (share_of-ShareOf h profit sum t amount e1),
          dues_bound seller profit sum rest _ l' e2,
        ))

  -- The balances after a transfer that was accepted.
  paid_one :
      (seller who amount : ℕ) (l l' : L) (r : Reply L)
      → r ≡ accepted l'
      → transfer seller who amount l ≡ r
      → (a : AccountId)
      → (free_balance a (ignoring l r) + only a seller amount
          ≡ free_balance a l + only a who amount)
        × (reserved_balance a (ignoring l r) ≡ reserved_balance a l)
  paid_one seller who amount l l' (refused x) q e a = cc
  paid_one seller who amount l l' (accepted l1) q e a = transfer_moves seller who amount l l1 a e

  unreserve_free :
      (who amount : ℕ) (l : L) (a : AccountId)
      → amount ≤ reserved_balance who l
      → free_balance a (unreserve who amount l) ≡ free_balance a l + only a who amount
  unreserve_free who amount l a enough = ground (arith, unreserve_moves who amount l a)

  -- Each vote has its earnings, which are bounded in all, and the balances are those after all were paid.
  pub record PaidOut (seller : AccountId) (part price : ℕ) (votes : List Vote)
      (earnings : List (Vote × ℕ)) (l paid : L) : Type 0 where
    pub of_votes : map vote_of earnings ≡ votes
    pub bounded : total_earned earnings * scale ≤ part * price
    pub balances :
        (a : AccountId)
        → free_balance a paid + only a seller (total_earned earnings)
          ≡ free_balance a l + votes_held a votes + earned_by a earnings

  -- `accepts` is what the balances pallet does where no lock holds a balance, as in this runtime.
  module _ (minimum : ℕ)
      (accepts : (from to amount : ℕ) (l : L)
        → amount + minimum ≤ free_balance from l
        → minimum ≤ free_balance to l
        → (l' : L) × (transfer from to amount l ≡ accepted l')) where
    pays_all :
        (seller : AccountId) (profit sum : N) (rest : List (Vote × N)) (l l' : L)
        → pay_votes h seller profit sum rest l ≡ some l'
        → ((a : AccountId) → votes_held a (voters h rest) ≤ reserved_balance a l)
        → All (λ (v : Vote). minimum ≤ v.amount) (voters h rest)
        → total_earned (dues profit sum rest) + minimum ≤ free_balance seller l
        → (a : AccountId)
        → free_balance a l' + only a seller (total_earned (dues profit sum rest))
          ≡ free_balance a l + votes_held a (voters h rest) + earned_by a (dues profit sum rest)
    unfolding pay_votes
    pays_all seller profit sum [] l l' e enough large rich a = ground (arith, some-injective _ _ e)
    pays_all seller profit sum ((v, t) ∷ rest) l l' e enough large rich a =
        bind-step (share_of h profit sum t) e λ amount e1 e2.
          let unlocked = unreserve v.owner v.amount l in
          let held : v.amount ≤ reserved_balance v.owner l = ground (arith, enough v.owner) in
          let freed = λ (b : ℕ). unreserve_free v.owner v.amount l b held in
          let kept = λ (b : ℕ). unreserve_exact h v.owner v.amount l b held in
          let due : or_zero (share_of h profit sum t) ≡ amount = rw e1 refl in
          let (l1, goes) =
            accepts seller v.owner amount unlocked (omega (arith, rich, due, freed seller))
              (ground (arith, large.0, freed v.owner)) in
          let one = λ (b : ℕ).
            paid_one seller v.owner amount unlocked l1 (transfer seller v.owner amount unlocked)
              goes refl b in
          let rich_still : total_earned (dues profit sum rest) + minimum
              ≤ free_balance seller (ignoring unlocked (transfer seller v.owner amount unlocked)) =
            ground (arith, rich, due, freed seller, (one seller).0) in
          let all =
            pays_all seller profit sum rest
              (ignoring unlocked (transfer seller v.owner amount unlocked)) l' e2
              (λ b. omega (arith, enough b, kept b, (one b).1)) large.1 rich_still a in
          add_dues seller v.owner a (or_zero (share_of h profit sum t))
            (total_earned (dues profit sum rest)) (free_balance a l) (free_balance a unlocked)
            (free_balance a (ignoring unlocked (transfer seller v.owner amount unlocked)))
            (free_balance a l') (votes_held a (voters h rest)) v.amount
            (earned_by a (dues profit sum rest)) (omega (arith, freed a)) (rw due (one a).0) all

    pub payout_pays :
        (c : Config F) (order : Order) (price : ℕ) (v : Vote) (vs : List Vote) (l paid : L)
        (rate : N)
        → Checked h.fixed
        → h.fixed.from_float c.profit_rate ≡ some rate
        → raw rate ≤ scale
        → price + minimum ≤ free_balance order.owner l
        → ((a : AccountId) → votes_held a (v ∷ vs) ≤ reserved_balance a l)
        → All (λ (w : Vote). minimum ≤ w.amount) (v ∷ vs)
        → (out : PayoutOf h c order price (v ∷ vs) l paid)
        → PaidOut order.owner
            (raw rate)
            price
            (v ∷ vs)
            (dues out.profit_amount out.w.tt out.w.vote_res)
            l
            paid
    unfolding no_weights
    payout_pays c order price v vs l paid rate k re part rich enough large out =
        let profit = out.profit_amount in
        let sum = out.w.tt in
        let same : voters h out.w.vote_res ≡ v ∷ vs =
          weigh_votes-voters h _ _ _ _ (v ∷ vs) (no_weights h out.zero_num) out.w out.weights_eq in
        let bound =
          part_of_price h k c order price v vs l paid rate
            (total_earned (dues profit sum out.w.vote_res)) re out
            (dues_bound order.owner profit sum out.w.vote_res l paid out.paid_eq) in
        let at_most : total_earned (dues profit sum out.w.vote_res) ≤ price =
          le_of_mul-le-mul_left {k = scale} (omega (arith, bound, mul-le-mul_right price part))
            scale_positive in
        record {
          of_votes = dues-voters profit sum out.w.vote_res ∙ same;
          bounded = bound;
          balances = λ a. rw same at (
              pays_all order.owner profit sum out.w.vote_res l paid out.paid_eq (rw same enough)
                (rw same large) (omega (arith, at_most, rich)) a);
        }
