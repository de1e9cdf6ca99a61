-- ===== src/Nft/Acceptance/Accepts.antt =====
-- The calls of pallets/nft/src/lib.rs succeed where they are accepted.
use nft101_rust.Prelude.{ℕ, ◌+◌, ◌-◌, ◌≤◌, ◌<◌, ◌≡◌, refl, none, some, List, arith}
use nft101_rust.Frame.{AccountId, Host, accepted}
use nft101_rust.Nft.Types.{State, Order, Bid, Config, Event}
use nft101_rust.Nft.Effects.{done, ◌>>=◌, M}
use nft101_rust.Nft.Parts.{ensure_free_nft, is_time_to_settlement, cancel, clean_order_bid}
use nft101_rust.Nft.Payout.{algorithm}
use nft101_rust.Nft.Calls as Calls
use nft101_rust.Nft.Guards.{OnOrder, SellGuards, new_order}
use nft101_rust.Nft.Acceptance.{OwnsFree}
use nft101_rust.Nft.States.{
  created, removed, transferred, listed, completed, voted, released, cancelled, logged,
}
use nft101_rust.Nft.Acceptance.Checks.{
  le→leb, lt→ltb, le→ltb, eq→==, le→checked_add, le→checked_sub,
}

module _ {O L F N : Type 0} (h : Host O L F N) (c : Config F) (origin : O) (s : State L) where
  pub create_accepts :
      (title url desc : List ℕ) (who : AccountId)
      → h.ensure_signed origin ≡ accepted who
      → s.next_nft_id + 1 ≤ c.max_nft_id
      → Calls.create h c origin title url desc s
        ≡ done tt (created who (record { title = title; url = url; desc = desc }) s)
  unfolding Calls.create
  create_accepts title url desc who sg room =
      rw (sg, le→checked_add c.max_nft_id s.next_nft_id 1 room) refl

  free_accepts :
      (who n : ℕ) (k : Unit {0} → M L (Unit {0}))
      → OwnsFree h origin s n who
      → (ensure_free_nft who n >>= k) s ≡ k tt s
  free_accepts who n k g = rw (g.exists.1, eq→== (s.nft_account n) who g.owned, g.unlisted) refl

  pub remove_accepts :
      (n : ℕ) (who : AccountId)
      → OwnsFree h origin s n who
      → Calls.remove h c origin n s ≡ done tt (removed c.default_account who n s)
  unfolding Calls.remove
  remove_accepts n who g = rw g.signer (free_accepts who n _ g)

  pub transfer_accepts :
      (target n : ℕ) (who : AccountId)
      → OwnsFree h origin s n who
      → Calls.transfer h c origin target n s ≡ done tt (transferred who target n s)
  unfolding Calls.transfer
  transfer_accepts target n who g = rw g.signer (free_accepts who n _ g)

  pub sell_accepts :
      (n start_price end_price keep : ℕ) (who : AccountId)
      → SellGuards h c origin s who (new_order who n start_price end_price keep s)
      → Calls.order_sell h c origin n start_price end_price keep s
        ≡ done tt (listed (new_order who n start_price end_price keep s) s)
  unfolding Calls.order_sell
  sell_accepts n start_price end_price keep who g =
      rw
        (
          g.signer,
          le→leb keep c.max_keep_block_number g.keep_le,
          le→leb c.min_keep_block_number keep g.keep_ge,
          g.exists.1,
          eq→== (s.nft_account n) who g.owned,
          g.unlisted,
          le→leb c.minimum_price start_price g.price_ge,
          le→leb start_price end_price g.price_le,
          le→checked_add c.max_order_id s.next_order_id 1 g.room,
        )
        refl

  pub vote_accepts :
      (o amount : ℕ) (who : AccountId) (order : Order) (l : L)
      → OnOrder h origin s o who order
      → s.block_number - order.create_block ≤ order.keep_block_num
      → c.minimum_voting_lock ≤ amount
      → order.create_block + order.keep_block_num ≤ c.max_block_number
      → h.currency.reserve who amount s.ledger ≡ accepted l
      → Calls.vote_order h c origin o amount s
        ≡ done tt (
            voted o
              (record {
                order_id = o;
                amount = amount;
                keep_block_num = order.create_block + order.keep_block_num - s.block_number;
                owner = who;
              })
              l
              s)
  unfolding Calls.vote_order is_time_to_settlement
  vote_accepts o amount who order l g running enough fits locked =
      rw
        (
          g.signer,
          g.found,
          le→checked_sub s.block_number order.create_block g.started,
          le→ltb order.keep_block_num (s.block_number - order.create_block) running,
          le→leb c.minimum_voting_lock amount enough,
          le→checked_add c.max_block_number order.create_block order.keep_block_num fits,
          le→checked_sub (order.create_block + order.keep_block_num) s.block_number
              (omega (arith, g.started, running)),
          locked,
        )
        refl

  pub cancel_accepts :
      (o : ℕ) (who : AccountId) (order : Order)
      → OnOrder h origin s o who order
      → order.keep_block_num < s.block_number - order.create_block
      → s.bids o ≡ none
      → Calls.order_settlement h c origin o s ≡ done tt (cancelled h order o s)
  unfolding Calls.order_settlement is_time_to_settlement cancel
  cancel_accepts o who order g over no_bid =
      rw
        (
          g.signer,
          g.found,
          le→checked_sub s.block_number order.create_block g.started,
          lt→ltb order.keep_block_num (s.block_number - order.create_block) over,
          no_bid,
        )
        refl

  pub settlement_accepts :
      (o : ℕ) (who : AccountId) (order : Order) (bid : Bid) (l paid : L)
      → OnOrder h origin s o who order
      → order.keep_block_num < s.block_number - order.create_block
      → s.bids o ≡ some bid
      → h.currency.transfer bid.owner order.owner bid.price
          (h.currency.unreserve bid.owner bid.price s.ledger)
        ≡ accepted l
      → algorithm h c order bid.price (s.votes order.order_id) l ≡ some paid
      → Calls.order_settlement h c origin o s
        ≡ done tt (
            logged
              (Event.order_complete bid.owner o)
              (completed order bid.owner paid (released h o (some bid) s)))
  unfolding Calls.order_settlement is_time_to_settlement clean_order_bid Calls.order_complete
  settlement_accepts o who order bid l paid g over has_bid moved shares =
      rw
        (
          g.signer,
          g.found,
          le→checked_sub s.block_number order.create_block g.started,
          lt→ltb order.keep_block_num (s.block_number - order.create_block) over,
          has_bid,
          has_bid,
          moved,
          shares,
        )
        refl
