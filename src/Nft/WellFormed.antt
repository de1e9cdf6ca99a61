-- ===== src/Nft/WellFormed.antt =====
-- The invariant of the storage of pallets/nft/src/lib.rs: orders, listings, bids and votes agree.
pub mod Kept
pub mod Traded
pub mod Always
pub mod Ranges
use nft101_rust.Prelude.{
  ℕ, ◌+◌, ◌≤◌, ◌<◌, ◌≡◌, ◌≢◌, refl, is_some, true, Option, none, some, List, [], ◌∷◌, ◌++◌, update,
  ◌==◌, All, All-append, arith,
}
use nft101_rust.Frame.{AccountId, Host}
use nft101_rust.Nft.Types.{State, Nft, Order, Bid, Vote, Config}
use nft101_rust.Nft.States.{
  logged, created, removed, transferred, listed, completed, voted, released, outbid, cancelled,
}
use nft101_rust.Nft.Guards.{SellGuards, BuyGuards, OnOrder}

module _ {F : Type 0} (c : Config F) where
  pub record GoodVote (o : ℕ) (vote : Vote) : Type 0 where
    pub same_id : vote.order_id ≡ o
    pub amount_ge : c.minimum_voting_lock ≤ vote.amount

-- A vote has at most the time of its order left.
abbrev pub InTime : Order → Vote → Type 0
InTime order vote = vote.keep_block_num ≤ order.keep_block_num

module _ {L F : Type 0} (c : Config F) where
  -- An open order is listed under its item, which exists and belongs to the seller.
  pub record GoodOrder (s : State L) (o : ℕ) (order : Order) : Type 0 where
    pub same_id : order.order_id ≡ o
    pub fresh : o < s.next_order_id
    pub listed_as : s.nft_order order.nft_id ≡ some o
    pub exists : is_some (s.nfts order.nft_id) ≡ true
    pub owned : s.nft_account order.nft_id ≡ order.owner
    pub price_ge : c.minimum_price ≤ order.start_price
    pub price_le : order.start_price ≤ order.end_price
    pub keep_ge : c.min_keep_block_number ≤ order.keep_block_num
    pub keep_le : order.keep_block_num ≤ c.max_keep_block_number
    pub started : order.create_block ≤ s.block_number

  pub record WellFormed (s : State L) : Type 0 where
    pub order_good : (o : ℕ) (order : Order) → s.orders o ≡ some order → GoodOrder s o order
    pub item_listed :
        (n o : ℕ)
        → s.nft_order n ≡ some o
        → (order : Order) × (s.orders o ≡ some order) × (order.nft_id ≡ n)
    pub bid_good :
        (o : ℕ) (bid : Bid)
        → s.bids o ≡ some bid
        → (order : Order) × (s.orders o ≡ some order)
          × (bid.order_id ≡ o)
          × (order.start_price ≤ bid.price)
          × (bid.price < order.end_price)
    pub votes_open : (o : ℕ) → s.orders o ≡ none → s.votes o ≡ []
    pub votes_good : (o : ℕ) → All (GoodVote c o) (s.votes o)
    pub votes_timed :
        (o : ℕ) (order : Order) → s.orders o ≡ some order → All (InTime order) (s.votes o)
    pub item_fresh : (n : ℕ) → is_some (s.nfts n) ≡ true → n < s.next_nft_id
