-- ===== src/Nft/Backing/Closed.antt =====
-- The reserved balances where an order of pallets/nft/src/lib.rs ends, by a sale or by a cancellation.
use nft101_rust.Prelude.{
  ℕ, ◌+◌, ◌<◌, ◌≡◌, refl, Option, none, some, List, [], update_self, update_ne, arith, ap, sym,
}
use nft101_rust.Frame.{AccountId, Host, accepted}
use nft101_rust.Nft.Types.{State, Order, Bid, Vote, Config}
use nft101_rust.Nft.States.{completed, released, cancelled}
use nft101_rust.Nft.Payout.{algorithm}
use nft101_rust.Nft.Backing.{bid_held, votes_held, Backed}
use nft101_rust.Nft.Backing.Unlocking.{unlock_votes_exact, algorithm_exact}
use nft101_rust.Nft.Backing.States.{rebalance, released-Backed, held_reserved}

module _ {O L F N : Type 0} (h : Host O L F N) (c : Config F) (others : AccountId → ℕ) where
  open h.currency use {reserved_balance, reserve_moves, transfer_moves}

  -- A completed sale unlocks the votes, whatever the bid still holds.
  completed-Backed :
      (order : Order) (buyer price : ℕ) (l paid : L) (s : State L)
      → order.order_id < s.next_order_id
      → h.currency.transfer buyer order.owner price s.ledger ≡ accepted l
      → algorithm h c order price (s.votes order.order_id) l ≡ some paid
      → Backed h others s
      → Backed h others (completed order buyer paid s)
  completed-Backed order buyer price l paid s lt moves pays k =
      let o = order.order_id in
      rebalance h c others s (completed order buyer paid s) o k lt refl
        (λ a j ne.
          ap (λ (vs : List Vote). bid_held a (s.bids j) + votes_held a vs)
            (sym (update_ne s.votes o [] j ne)))
        (λ a.
          let still = λ (x : ℕ). (transfer_moves buyer order.owner price s.ledger l x moves).1 in
          rw (update_self s.votes o []) (
            omega (
              arith,
              still a,
              algorithm_exact h c order price (s.votes o) l paid pays
                  (λ x. omega (arith, still x, held_reserved h c others s x o k lt)) a,
            )))

  pub sold-Backed :
      (o : ℕ) (b : Option Bid) (order : Order) (buyer price : ℕ) (l paid : L) (s : State L)
      → s.bids o ≡ b
      → order.order_id ≡ o
      → o < s.next_order_id
      → h.currency.transfer buyer order.owner price s.ledger ≡ accepted l
      → algorithm h c order price (s.votes order.order_id) l ≡ some paid
      → Backed h others s
      → Backed h others (released h o b (completed order buyer paid s))
  sold-Backed o none order buyer price l paid s e id lt moves pays k =
      completed-Backed order buyer price l paid s (rw id lt) moves pays k
  sold-Backed o (some bid) order buyer price l paid s e id lt moves pays k =
      released-Backed h c others o bid (completed order buyer paid s) e lt
        (completed-Backed order buyer price l paid s (rw id lt) moves pays k)

  pub settled-Backed :
      (o : ℕ) (bid : Bid) (order : Order) (l paid : L) (s : State L)
      → s.bids o ≡ some bid
      → order.order_id ≡ o
      → o < s.next_order_id
      → h.currency.transfer bid.owner order.owner bid.price
          (h.currency.unreserve bid.owner bid.price s.ledger)
        ≡ accepted l
      → algorithm h c order bid.price (s.votes order.order_id) l ≡ some paid
      → Backed h others s
      → Backed h others (completed order bid.owner paid (released h o (some bid) s))
  settled-Backed o bid order l paid s e id lt moves pays k =
      completed-Backed order bid.owner bid.price l paid (released h o (some bid) s) (rw id lt) moves
        pays (released-Backed h c others o bid s e lt k)

  pub cancelled-Backed :
      (o : ℕ) (order : Order) (s : State L)
      → s.bids o ≡ none
      → o < s.next_order_id
      → Backed h others s
      → Backed h others (cancelled h order o s)
  cancelled-Backed o order s e lt k =
      rebalance h c others s (cancelled h order o s) o k lt refl
        (λ a j ne.
          ap (λ (vs : List Vote). bid_held a (s.bids j) + votes_held a vs)
            (sym (update_ne s.votes o [] j ne)))
        (λ a.
          rw (update_self s.votes o [], e)
            (omega (
              arith,
              unlock_votes_exact h (s.votes o) s.ledger
                  (λ x. omega (arith, held_reserved h c others s x o k lt)) a,
            )))
