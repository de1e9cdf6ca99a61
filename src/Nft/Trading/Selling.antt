-- ===== src/Nft/Trading/Selling.antt =====
-- The sale of an item to its best bidder by `order_settlement` of pallets/nft/src/lib.rs.
use nft101_rust.Prelude.{ℕ, ◌+◌, ◌≤◌, ◌<◌, ◌≡◌, none, some, [], update_self, arith}
use nft101_rust.Frame.{AccountId, Host, accepted}
use nft101_rust.Nft.Types.{State, Order, Bid, Config, Event}
use nft101_rust.Nft.Effects.{done, panicked}
use nft101_rust.Nft.States.{released, completed, logged}
use nft101_rust.Nft.Payout.{algorithm}
use nft101_rust.Nft.Parts.{is_time_to_settlement, clean_order_bid}
use nft101_rust.Nft.Calls.{order_complete}
use nft101_rust.Nft.Calls as Calls
use nft101_rust.Nft.Dispatch.{dispatch, order_settlement}

-- The sale of an order to a bidder: the order, its listing, its bid and its votes are gone.
pub record IsSold {L : Type 0} (o : ℕ) (order : Order) (buyer : AccountId) (t : State L)
    : Type 0 where
  pub moved : t.nft_account order.nft_id ≡ buyer
  pub closed : t.orders o ≡ none
  pub unlisted : t.nft_order order.nft_id ≡ none
  pub no_bid : t.bids o ≡ none
  pub no_votes : t.votes o ≡ []

module _ {O L F N : Type 0} (h : Host O L F N) (c : Config F) where
  abbrev sold : ℕ → Order → Bid → L → State L → State L
  sold o order bid paid s =
      logged (Event.order_complete bid.owner o)
        (completed order bid.owner paid (released h o (some bid) s))

  -- The settlement sells once the bid can be paid and the payout returns.
  pub settlement_sells :
      (origin : O) (who o : ℕ) (order : Order) (bid : Bid) (l paid : L) (s : State L)
      → order.order_id ≡ o
      → order.create_block ≤ s.block_number
      → h.ensure_signed origin ≡ accepted who
      → s.orders o ≡ some order
      → s.bids o ≡ some bid
      → order.create_block + order.keep_block_num < s.block_number
      → h.currency.transfer bid.owner order.owner bid.price
          (h.currency.unreserve bid.owner bid.price s.ledger)
        ≡ accepted l
      → algorithm h c order bid.price (s.votes o) l ≡ some paid
      → (t : State L) × (dispatch h c origin (order_settlement o) s ≡ done tt t)
        × IsSold o order bid.owner t
  unfolding dispatch Calls.order_settlement is_time_to_settlement clean_order_bid order_complete
  settlement_sells origin who o order bid l paid s same started signer found best over pays shares =
      (
        sold o order bid paid s,
        ground (arith, same),
        record {
          moved = update_self s.nft_account order.nft_id bid.owner;
          closed = rw same (update_self s.orders o none);
          unlisted = update_self s.nft_order order.nft_id none;
          no_bid = update_self s.bids o none;
          no_votes = rw same (update_self s.votes o []);
        },
      )

  -- It panics where the payout does.
  pub settlement_panics :
      (origin : O) (who o : ℕ) (order : Order) (bid : Bid) (l : L) (s : State L)
      → order.order_id ≡ o
      → order.create_block ≤ s.block_number
      → h.ensure_signed origin ≡ accepted who
      → s.orders o ≡ some order
      → s.bids o ≡ some bid
      → order.create_block + order.keep_block_num < s.block_number
      → h.currency.transfer bid.owner order.owner bid.price
          (h.currency.unreserve bid.owner bid.price s.ledger)
        ≡ accepted l
      → algorithm h c order bid.price (s.votes o) l ≡ none
      → dispatch h c origin (order_settlement o) s ≡ panicked
  unfolding dispatch Calls.order_settlement is_time_to_settlement clean_order_bid order_complete
  settlement_panics origin who o order bid l s same started signer found best over pays bad =
      ground (arith, same)
