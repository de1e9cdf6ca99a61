-- ===== src/Nft/Backing.antt =====
-- What the open bids and votes of pallets/nft/src/lib.rs hold of each account, and that the ledger
-- has that much of it reserved.
pub mod Unlocking
pub mod States
pub mod Closed
pub mod Always
pub mod Pledges
use nft101_rust.Prelude.{ℕ, ◌+◌, ◌≤◌, ◌≡◌, refl, Option, none, some, List, [], ◌∷◌, ◌++◌, arith}
use nft101_rust.Prelude.Sums.{sum_below}
use nft101_rust.Frame.{AccountId, Host, only}
use nft101_rust.Nft.Types.{State, Bid, Vote}

abbrev pub bid_held : AccountId → Option Bid → ℕ
bid_held a none = 0
bid_held a (some bid) = only a bid.owner bid.price

abbrev pub votes_held : AccountId → List Vote → ℕ
votes_held a [] = 0
votes_held a (v ∷ vs) = only a v.owner v.amount + votes_held a vs

pub votes_held-append :
    (a : AccountId) (vs ws : List Vote)
    → votes_held a (vs ++ ws) ≡ votes_held a vs + votes_held a ws
votes_held-append a [] ws = omega arith
votes_held-append a (v ∷ vs) ws = omega (arith, votes_held-append a vs ws)

module _ {L : Type 0} where
  -- What an order holds of an account.
  abbrev pub held : State L → AccountId → ℕ → ℕ
  held s a o = bid_held a (s.bids o) + votes_held a (s.votes o)

  -- What all orders hold of it.
  abbrev pub locked : State L → AccountId → ℕ
  locked s a = sum_below s.next_order_id (held s a)

module _ {O L F N : Type 0} (h : Host O L F N) where
  -- Of each account is reserved what the orders hold, beside `others`, which other pallets reserve.
  abbrev pub Backed : (AccountId → ℕ) → State L → Type 0
  Backed others s = (a : AccountId) → h.currency.reserved_balance a s.ledger ≡ others a + locked s a
