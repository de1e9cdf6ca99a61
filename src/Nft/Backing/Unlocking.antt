-- ===== src/Nft/Backing/Unlocking.antt =====
-- What the unlocking of bids and votes does to the reserved balances.
use nft101_rust.Prelude.{ℕ, ◌+◌, ◌≤◌, ◌≡◌, refl, some, List, [], ◌∷◌, ◌++◌, ap, ◌∙◌, arith}
use mathlib.Core.List.{append-nil, append_assoc}
use nft101_rust.Prelude.Partial.{bind-step, >>=-eq-some}
use nft101_rust.Frame.{AccountId, Host, only, Reply, accepted, refused}
use nft101_rust.Nft.Types.{Vote, Order, Config}
use nft101_rust.Nft.Parts.{unlock_votes}
use nft101_rust.Nft.Payout.{
  pay_votes, share_of, ignoring, algorithm, weigh_votes, weigh_vote, no_weights, Weights,
}
use nft101_rust.Nft.Payout.Rounds.{Round, weigh_vote-Round, PayoutOf, algorithm-PayoutOf}
use nft101_rust.Nft.Backing.{votes_held}

module _ {O L F N : Type 0} (h : Host O L F N) where
  open h.currency use {reserved_balance, unreserve, transfer, unreserve_moves, transfer_moves}

  -- What is reserved of its owner is unlocked in full.
  pub unreserve_exact :
      (who amount : ℕ) (l : L) (a : AccountId)
      → amount ≤ reserved_balance who l
      → reserved_balance a (unreserve who amount l) + only a who amount ≡ reserved_balance a l
  unreserve_exact who amount l a enough = ground (arith, unreserve_moves who amount l a)

  -- All votes of a list are unlocked in full where the ledger has them reserved.
  pub unlock_votes_exact :
      (votes : List Vote) (l : L)
      → ((a : AccountId) → votes_held a votes ≤ reserved_balance a l)
      → (a : AccountId)
      → reserved_balance a (unlock_votes h votes l) + votes_held a votes ≡ reserved_balance a l
  unfolding unlock_votes
  unlock_votes_exact [] l enough a = omega arith
  unlock_votes_exact (v ∷ vs) l enough a =
      let one = λ (b : ℕ). unreserve_exact v.owner v.amount l b (ground (arith, enough v.owner)) in
      omega (
        arith,
        one a,
        unlock_votes_exact vs (unreserve v.owner v.amount l) (λ b. omega (arith, one b, enough b))
            a,
      )

  abbrev pub voters : List (Vote × N) → List Vote
  voters [] = []
  voters ((v, t) ∷ rest) = v ∷ voters rest

  ignoring_reserved :
      (seller who amount : ℕ) (l : L) (r : Reply L) (a : AccountId)
      → transfer seller who amount l ≡ r
      → reserved_balance a (ignoring l r) ≡ reserved_balance a l
  ignoring_reserved seller who amount l (accepted l') a e =
      (transfer_moves seller who amount l l' a e).1
  ignoring_reserved seller who amount l (refused x) a e = refl

  -- Paying the voters unlocks all their votes in full.
  pub pay_votes_exact :
      (seller : AccountId) (p tt : N) (rest : List (Vote × N)) (l l' : L)
      → pay_votes h seller p tt rest l ≡ some l'
      → ((a : AccountId) → votes_held a (voters rest) ≤ reserved_balance a l)
      → (a : AccountId) → reserved_balance a l' + votes_held a (voters rest) ≡ reserved_balance a l
  unfolding pay_votes
  pay_votes_exact seller p tt [] l l' e enough a = ground arith
  pay_votes_exact seller p tt ((v, t) ∷ rest) l l' e enough a =
      let found = >>=-eq-some (share_of h p tt t) _ e in
      let unlocked = unreserve v.owner v.amount l in
      let one = λ (b : ℕ). unreserve_exact v.owner v.amount l b (ground (arith, enough v.owner)) in
      let kept = λ (b : ℕ). ignoring_reserved seller v.owner found.0 unlocked _ b refl in
      omega (
        arith,
        one a,
        kept a,
        pay_votes_exact seller p tt rest _ l' found.2 (λ b. omega (arith, one b, kept b, enough b))
            a,
      )

  voters-append : (xs ys : List (Vote × N)) → voters (xs ++ ys) ≡ voters xs ++ voters ys
  voters-append [] ys = refl
  voters-append ((v, t) ∷ xs) ys = ap (◌∷◌ v) (voters-append xs ys)

  pub weigh_votes-voters :
      (fix_rate blocks day stock : N) (vs : List Vote) (w w' : Weights N)
      → weigh_votes h fix_rate blocks day stock vs w ≡ some w'
      → voters w'.vote_res ≡ voters w.vote_res ++ vs
  unfolding weigh_votes
  weigh_votes-voters fix_rate blocks day stock [] w w' e =
      rw (append-nil (voters w.vote_res)) (ground arith)
  weigh_votes-voters fix_rate blocks day stock (v ∷ vs) w w' e =
      bind-step (weigh_vote h fix_rate blocks day stock v w) e λ w1 e1 rest.
        let round : Round h fix_rate blocks day stock v w w1 =
          weigh_vote-Round h fix_rate blocks day stock v w w1 e1 in
        weigh_votes-voters fix_rate blocks day stock vs w1 w' rest
        ∙ rw (round.res_eq, voters-append w.vote_res ((v, round.t) ∷ []))
            (append_assoc (voters w.vote_res) (v ∷ []) vs)

  -- The payout of a sale unlocks all votes in full.
  pub algorithm_exact :
      (c : Config F) (order : Order) (price : ℕ) (votes : List Vote) (l l' : L)
      → algorithm h c order price votes l ≡ some l'
      → ((a : AccountId) → votes_held a votes ≤ reserved_balance a l)
      → (a : AccountId) → reserved_balance a l' + votes_held a votes ≡ reserved_balance a l
  unfolding algorithm no_weights
  algorithm_exact c order price [] l l' e enough a = ground arith
  algorithm_exact c order price (v ∷ vs) l l' e enough a =
      let paid : PayoutOf h c order price (v ∷ vs) l l' =
        algorithm-PayoutOf h c order price v vs l l' e in
      let same : voters paid.w.vote_res ≡ v ∷ vs =
        weigh_votes-voters _ _ _ _ (v ∷ vs) (no_weights h paid.zero_num) paid.w paid.weights_eq in
      rw same at (
        pay_votes_exact order.owner paid.profit_amount paid.w.tt paid.w.vote_res l l' paid.paid_eq
          (rw same enough) a)
