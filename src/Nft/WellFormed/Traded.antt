-- ===== src/Nft/WellFormed/Traded.antt =====
-- The invariant at the states in which bids and votes of pallets/nft/src/lib.rs end.
use nft101_rust.Prelude.{
  ℕ, ◌≤◌, ◌<◌, ◌≡◌, Option, none, some, List, [], ◌∷◌, ◌++◌, update, All-append, sym, subst, ◌∙◌,
  update_self, update_ne, arith,
}
use mathlib.Core.Option.{some-injective}
use native.Mathlib.Decide.{ℕ_discrete}
use nft101_rust.Frame.{AccountId, Host}
use nft101_rust.Nft.Types.{State, Order, Bid, Vote, Config, Event}
use nft101_rust.Nft.States.{voted, released, outbid}
use nft101_rust.Nft.WellFormed.{WellFormed, GoodVote, InTime}

module _ {L F : Type 0} (c : Config F) where
  pub voted-WellFormed :
      (o : ℕ) (vote : Vote) (l : L) (order : Order) (s : State L)
      → s.orders o ≡ some order
      → GoodVote c o vote
      → InTime order vote
      → WellFormed c s
      → WellFormed c (voted o vote l s)
  voted-WellFormed o vote l order s found g timed w = record {
    order_good = λ j x e. ground (arith, w.order_good j x e);
    item_listed = w.item_listed;
    bid_good = w.bid_good;
    votes_open = λ j e. ground (arith, w.votes_open j);
    votes_good = λ j. elim (ℕ_discrete j o) [
      | yes p ↦
          rw (p, update_self s.votes o (s.votes o ++ vote ∷ []))
            (All-append _ (s.votes o) (vote ∷ []) (w.votes_good o) (g, tt))
      | no p ↦ rw (update_ne s.votes o (s.votes o ++ vote ∷ []) j p) (w.votes_good j)
    ];
    votes_timed = λ j x e. elim (ℕ_discrete j o) [
      | yes p ↦
          let same : order ≡ x =
            some-injective _ _ (sym found ∙ subst (λ (i : ℕ). s.orders i ≡ some x) p e) in
          rw (p, update_self s.votes o (s.votes o ++ vote ∷ []))
            (All-append (InTime x) (s.votes o) (vote ∷ [])
              (w.votes_timed o x (subst (λ (i : ℕ). s.orders i ≡ some x) p e))
              (subst (λ (y : Order). InTime y vote) same timed, tt))
      | no p ↦ rw (update_ne s.votes o (s.votes o ++ vote ∷ []) j p) (w.votes_timed j x e)
    ];
    item_fresh = w.item_fresh;
  }

  -- Only the ledger, the events and one bid differ.
  pub rebid-WellFormed :
      (bids : ℕ → Option Bid) (l : L) (events : List Event) (s : State L)
      → ((j : ℕ) (b : Bid)
          → bids j ≡ some b
          → (order : Order) × (s.orders j ≡ some order)
            × (b.order_id ≡ j)
            × (order.start_price ≤ b.price)
            × (b.price < order.end_price))
      → WellFormed c s
      → WellFormed c (record s { bids = bids; ledger = l; events = events })
  rebid-WellFormed bids l events s good w = record {
    order_good = λ j x e. ground (arith, w.order_good j x e);
    item_listed = w.item_listed;
    bid_good = good;
    votes_open = w.votes_open;
    votes_good = w.votes_good;
    votes_timed = w.votes_timed;
    item_fresh = w.item_fresh;
  }

module _ {O L F N : Type 0} (h : Host O L F N) (c : Config F) where
  pub released-WellFormed :
      (o : ℕ) (b : Option Bid) (s : State L)
      → s.bids o ≡ b
      → WellFormed c s
      → WellFormed c (released h o b s)
  released-WellFormed o none s e w = w
  released-WellFormed o (some bid) s e w =
      rebid-WellFormed c (update s.bids o none) _ s.events s
        (λ j b q. w.bid_good j b (ground arith)) w

  pub outbid-WellFormed :
      (o price : ℕ) (b : Option Bid) (who : AccountId) (l : L) (order : Order) (s : State L)
      → s.bids o ≡ b
      → s.orders o ≡ some order
      → order.start_price ≤ price
      → price < order.end_price
      → WellFormed c s
      → WellFormed c (outbid h o b (record { order_id = o; price = price; owner = who }) l s)
  outbid-WellFormed o price none who l order s e found p1 p2 w =
      rebid-WellFormed c
        (update s.bids o (some (record { order_id = o; price = price; owner = who }))) _ _ s
        (λ j b q. elim (ℕ_discrete j o) [
          | yes p ↦ (order, ground arith, ground arith, ground arith, ground arith)
          | no p ↦ w.bid_good j b (ground arith)
        ])
        w
  outbid-WellFormed o price (some old) who l order s e found p1 p2 w =
      rebid-WellFormed c
        (update (update s.bids o none) o
          (some (record { order_id = o; price = price; owner = who })))
        _ _ s
        (λ j b q. elim (ℕ_discrete j o) [
          | yes p ↦ (order, ground arith, ground arith, ground arith, ground arith)
          | no p ↦ w.bid_good j b (ground arith)
        ])
        w
