-- ===== src/Nft/Market/Auctions.antt =====
-- The calls of pallets/nft/src/lib.rs about open orders, as changes of the items.
use nft101_rust.Prelude.{
  ℕ, ◌+◌, ◌≤◌, ◌<◌, ◌≡◌, ◌≢◌, refl, ap, ◌∙◌, Option, none, some, List, [], ◌∷◌, ◌++◌, update,
  update_self, update_ne,
}
use nft101_rust.Frame.{Host}
use nft101_rust.Nft.Types.{State, Order, Bid, Vote, Config, Event}
use nft101_rust.Nft.States.{voted, outbid, completed, released, cancelled, logged}
use nft101_rust.Nft.Guards.{Outbids}
use nft101_rust.Nft.WellFormed.{WellFormed}
use nft101_rust.Nft.Market.{
  held, on_sale, Change, raises, votes, wins, returns, loses_bid, Beats, auction, Refines, best_of,
}
use nft101_rust.Nft.Market.Views.{auction-append}
use nft101_rust.Nft.Market.Changes.{along, closes, adjusts}

pub Beats-best_of : (b : Option Bid) (price : ℕ) → Outbids b price → Beats (best_of b) price
Beats-best_of none price k = k
Beats-best_of (some bid) price k = k

module _ {O L F N : Type 0} (h : Host O L F N) (c : Config F) (s : State L)
    (w : WellFormed c s) where
  pub voted-Refines :
      (o : ℕ) (order : Order) (vote : Vote) (l : L)
      → s.orders o ≡ some order
      → s.block_number ≤ order.create_block + order.keep_block_num
      → Refines s (voted o vote l s)
  voted-Refines o order vote l found open_still =
      adjusts h c s w (voted o vote l s) o order found refl refl refl refl
        (λ j nj. (refl, update_ne s.votes o (s.votes o ++ vote ∷ []) j nj))
        (along refl
          (ap on_sale (
            ap (auction order (s.bids o)) (update_self s.votes o (s.votes o ++ vote ∷ []))
            ∙ auction-append order (s.bids o) (s.votes o) vote))
          (votes (auction order (s.bids o) (s.votes o)) vote.owner vote.amount open_still))

  -- A bid in place of another or of none.
  pub outbid-Refines :
      (o : ℕ) (order : Order) (b : Option Bid) (bid : Bid) (l : L)
      → s.bids o ≡ b
      → s.orders o ≡ some order
      → s.block_number ≤ order.create_block + order.keep_block_num
      → order.start_price ≤ bid.price
      → bid.price < order.end_price
      → Outbids b bid.price
      → Refines s (outbid h o b bid l s)
  outbid-Refines o order none bid l e found open_still ge lt beats =
      adjusts h c s w (outbid h o none bid l s) o order found refl refl refl refl
        (λ j nj. (update_ne s.bids o (some bid) j nj, refl))
        (along (ap (λ (x : Option Bid). on_sale (auction order x (s.votes o))) e)
          (ap (λ (x : Option Bid). on_sale (auction order x (s.votes o)))
            (update_self s.bids o (some bid)))
          (raises (auction order none (s.votes o)) bid.owner bid.price open_still ge lt beats))
  outbid-Refines o order (some old) bid l e found open_still ge lt beats =
      adjusts h c s w (outbid h o (some old) bid l s) o order found refl refl refl refl
        (λ j nj.
          (update_ne (update s.bids o none) o (some bid) j nj ∙ update_ne s.bids o none j nj, refl))
        (along (ap (λ (x : Option Bid). on_sale (auction order x (s.votes o))) e)
          (ap (λ (x : Option Bid). on_sale (auction order x (s.votes o)))
            (update_self (update s.bids o none) o (some bid)))
          (raises (auction order (some old) (s.votes o)) bid.owner bid.price open_still ge lt
            beats))

  pub released-Refines :
      (o : ℕ) (order : Order) (bid : Bid)
      → s.orders o ≡ some order
      → order.create_block + order.keep_block_num < s.block_number
      → Refines s (released h o (some bid) s)
  released-Refines o order bid found over =
      adjusts h c s w (released h o (some bid) s) o order found refl refl refl refl
        (λ j nj. (update_ne s.bids o none j nj, refl))
        (along refl
          (ap (λ (x : Option Bid). on_sale (auction order x (s.votes o)))
            (update_self s.bids o none))
          (loses_bid (auction order (s.bids o) (s.votes o)) over))

  pub cancelled-Refines :
      (o : ℕ) (order : Order)
      → s.orders o ≡ some order
      → s.bids o ≡ none
      → order.create_block + order.keep_block_num < s.block_number
      → Refines s (cancelled h order o s)
  cancelled-Refines o order found e over =
      closes h c s w (cancelled h order o s) o order order.owner found refl
        (w.order_good o order found).owned (λ m ne. refl) refl
        (λ j nj. (update_ne s.orders o none j nj, refl, update_ne s.votes o [] j nj))
        (returns (auction order (s.bids o) (s.votes o)) over (ap best_of e))

  -- A sale, by a bid at the end price (with the old bid, if any, released after it) or at the settlement.
  completed-Refines :
      (t : State L) (o : ℕ) (order : Order) (buyer : ℕ) (paid : L) (bids : ℕ → Option Bid)
      (events : List Event)
      → s.orders o ≡ some order
      → ((j : ℕ) → j ≢ o → bids j ≡ s.bids j)
      → t ≡ record (completed order buyer paid s) {
        bids = bids;
        ledger = t.ledger;
        events = t.events;
      }
      → Change s.block_number (on_sale (auction order (s.bids o) (s.votes o))) (held buyer)
      → Refines s t
  completed-Refines t o order buyer paid bids events found rest e change =
      let id : order.order_id ≡ o = (w.order_good o order found).same_id in
      closes h c s w t o order buyer found (ap (λ (x : State L). x.nfts) e)
        (ap (λ (x : State L). x.nft_account order.nft_id) e
          ∙ update_self s.nft_account order.nft_id buyer)
        (λ m ne.
          ap (λ (x : State L). x.nft_account m) e ∙ update_ne s.nft_account order.nft_id buyer m ne)
        (ap (λ (x : State L). x.nft_order) e)
        (λ j nj.
          let nid : j ≢ order.order_id = rw id nj in
          (
            ap (λ (x : State L). x.orders j) e ∙ update_ne s.orders order.order_id none j nid,
            ap (λ (x : State L). x.bids j) e ∙ rest j nj,
            ap (λ (x : State L). x.votes j) e ∙ update_ne s.votes order.order_id [] j nid,
          ))
        change

  pub sold-Refines :
      (o : ℕ) (order : Order) (b : Option Bid) (buyer : ℕ) (paid : L)
      → s.orders o ≡ some order
      → Change s.block_number (on_sale (auction order (s.bids o) (s.votes o))) (held buyer)
      → Refines s (released h o b (completed order buyer paid s))
  sold-Refines o order none buyer paid found change =
      completed-Refines (completed order buyer paid s) o order buyer paid s.bids [] found
        (λ j nj. refl) refl change
  sold-Refines o order (some bid) buyer paid found change =
      completed-Refines (released h o (some bid) (completed order buyer paid s)) o order buyer paid
        (update s.bids o none) [] found (λ j nj. update_ne s.bids o none j nj) refl change

  pub settled-Refines :
      (o : ℕ) (order : Order) (bid : Bid) (paid : L) (ev : Event)
      → s.orders o ≡ some order
      → s.bids o ≡ some bid
      → order.create_block + order.keep_block_num < s.block_number
      → Refines s (logged ev (completed order bid.owner paid (released h o (some bid) s)))
  settled-Refines o order bid paid ev found e over =
      completed-Refines (logged ev (completed order bid.owner paid (released h o (some bid) s))) o
        order bid.owner paid (update s.bids o none) [] found (λ j nj. update_ne s.bids o none j nj)
        refl (wins (auction order (s.bids o) (s.votes o)) bid.owner bid.price over (ap best_of e))
