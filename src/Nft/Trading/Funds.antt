-- ===== src/Nft/Trading/Funds.antt =====
-- What an account has, free and reserved together, where the code of pallets/nft/src/lib.rs locks, unlocks and pays.
use mathlib.Core.Option.{some-injective}
use nft101_rust.Prelude.{
  ℕ, ◌+◌, ◌≤◌, ◌≡◌, ◌≢◌, refl, ◌∙◌, Option, none, some, List, [], ◌∷◌, All, arith,
}
use nft101_rust.Prelude.Partial.{bind-step}
use nft101_rust.Frame.{AccountId, Host, only, Reply, accepted, refused}
use nft101_rust.Nft.Types.{State, Order, Bid, Vote, Config}
use nft101_rust.Nft.States.{released}
use nft101_rust.Nft.Parts.{unlock_votes}
use nft101_rust.Nft.Payout.{share_of, pay_votes, ignoring, algorithm, no_weights}
use nft101_rust.Nft.Payout.Rounds.{PayoutOf, algorithm-PayoutOf}
use nft101_rust.Nft.Backing.Unlocking.{voters, weigh_votes-voters}

-- A vote of another account.
abbrev pub IsOther : AccountId → Vote → Type 0
IsOther a v = v.owner ≢ a

module _ {O L F N : Type 0} (h : Host O L F N) where
  open h.currency use {
    free_balance, reserved_balance, reserve_moves, unreserve_moves, transfer_moves,
  }

  -- All that an account has.
  abbrev pub funds : AccountId → L → ℕ
  funds a l = free_balance a l + reserved_balance a l

  pub reserve-funds :
      (who amount : ℕ) (l l' : L) (a : AccountId)
      → h.currency.reserve who amount l ≡ accepted l'
      → funds a l' ≡ funds a l
  reserve-funds who amount l l' a e = omega (arith, reserve_moves who amount l l' a e)

  pub unreserve-funds :
      (who amount : ℕ) (l : L) (a : AccountId)
      → funds a (h.currency.unreserve who amount l) ≡ funds a l
  unreserve-funds who amount l a = ground (arith, unreserve_moves who amount l a)

  pub unlock_votes-funds :
      (votes : List Vote) (l : L) (a : AccountId) → funds a (unlock_votes h votes l) ≡ funds a l
  unfolding unlock_votes
  unlock_votes-funds [] l a = refl
  unlock_votes-funds (v ∷ vs) l a =
      unlock_votes-funds vs (h.currency.unreserve v.owner v.amount l) a
      ∙ unreserve-funds v.owner v.amount l a

  pub released-funds :
      (o : ℕ) (b : Option Bid) (s : State L) (a : AccountId)
      → funds a (released h o b s).ledger ≡ funds a s.ledger
  released-funds o none s a = refl
  released-funds o (some bid) s a = unreserve-funds bid.owner bid.price s.ledger a

  pub transfer-funds :
      (from to amount : ℕ) (l l' : L) (a : AccountId)
      → h.currency.transfer from to amount l ≡ accepted l'
      → funds a l' + only a from amount ≡ funds a l + only a to amount
  transfer-funds from to amount l l' a e = omega (arith, transfer_moves from to amount l l' a e)

  -- A payment whose result is dropped takes from the payer alone, and gives to the payee alone.
  ignoring-funds :
      (from to amount : ℕ) (l : L) (r : Reply L) (a : AccountId)
      → a ≢ from
      → h.currency.transfer from to amount l ≡ r
      → (funds a l ≤ funds a (ignoring l r)) × (to ≢ a → funds a (ignoring l r) ≡ funds a l)
  ignoring-funds from to amount l (accepted l') a ne e = (
    ground (arith, transfer-funds from to amount l l' a e),
    λ other. ground (arith, transfer-funds from to amount l l' a e),
  )
  ignoring-funds from to amount l (refused x) a ne e = (omega arith, λ other. refl)

  pay_votes-funds :
      (seller : AccountId) (profit sum : N) (rest : List (Vote × N)) (l l' : L) (a : AccountId)
      → a ≢ seller
      → pay_votes h seller profit sum rest l ≡ some l'
      → (funds a l ≤ funds a l') × (All (IsOther a) (voters h rest) → funds a l' ≡ funds a l)
  unfolding pay_votes
  pay_votes-funds seller profit sum [] l l' a ne e =
      (ground (arith, some-injective _ _ e), λ all. ground (arith, some-injective _ _ e))
  pay_votes-funds seller profit sum ((v, t) ∷ rest) l l' a ne e =
      bind-step (share_of h profit sum t) e λ amount e1 e2.
        let freed = unreserve-funds v.owner v.amount l a in
        let one =
          ignoring-funds seller v.owner amount (h.currency.unreserve v.owner v.amount l) _ a ne
            refl in
        let more = pay_votes-funds seller profit sum rest _ l' a ne e2 in
        (omega (arith, freed, one.0, more.0), λ all. more.1 all.1 ∙ one.1 all.0 ∙ freed)

  -- The payout of a sale takes from the seller alone, and gives to the voters alone.
  pub algorithm-funds :
      (c : Config F) (order : Order) (price : ℕ) (votes : List Vote) (l l' : L) (a : AccountId)
      → a ≢ order.owner
      → algorithm h c order price votes l ≡ some l'
      → (funds a l ≤ funds a l') × (All (IsOther a) votes → funds a l' ≡ funds a l)
  unfolding algorithm no_weights
  algorithm-funds c order price [] l l' a ne e =
      (ground (arith, some-injective _ _ e), λ all. ground (arith, some-injective _ _ e))
  algorithm-funds c order price (v ∷ vs) l l' a ne e =
      let out : PayoutOf h c order price (v ∷ vs) l l' =
        algorithm-PayoutOf h c order price v vs l l' e in
      let same : voters h out.w.vote_res ≡ v ∷ vs =
        weigh_votes-voters h _ _ _ _ (v ∷ vs) (no_weights h out.zero_num) out.w out.weights_eq in
      rw same at (
        pay_votes-funds order.owner out.profit_amount out.w.tt out.w.vote_res l l' a ne out.paid_eq)
