-- ===== src/Nft/Market.antt =====
-- What pallets/nft/src/lib.rs promises of an item, without identifiers, storage and balances: whether it
-- exists, who holds it, how its auction stands, and how that can change.
pub mod Views
pub mod Changes
pub mod Auctions
pub mod Refined
pub mod History
use nft101_rust.Prelude.{ℕ, ◌+◌, ◌≤◌, ◌<◌, ◌≡◌, ◌≢◌, Option, none, some, List, [], ◌∷◌, ◌++◌, map}
use nft101_rust.Frame.{AccountId}
use nft101_rust.Nft.Types.{State, Nft, Order, Bid, Vote}

-- An auction: the seller, the prices, the last block for bids, the best bid and the votes, which
-- are accounts with amounts.
pub record Auction : Type 0 where
  pub seller : AccountId
  pub start : ℕ
  pub end : ℕ
  pub deadline : ℕ
  pub best : Option (AccountId × ℕ)
  pub pledges : List (AccountId × ℕ)

pub data Item : Type 0 where
  absent : Item
  held : AccountId → Item
  on_sale : Auction → Item

-- A price beats the best bid, if there is one.
abbrev pub Beats : Option (AccountId × ℕ) → ℕ → Type 0
Beats none price = Unit
Beats (some (_, best)) price = best < price

-- How an item can change at a block.
pub data Change (now : ℕ) : Item → Item → Type 0 where
  stays : {i : Item} → Change now i i
  mints : (who : AccountId) → Change now absent (held who)
  burns : (who : AccountId) → Change now (held who) absent
  gives : (who target : AccountId) → Change now (held who) (held target)
  lists :
      (a : Auction)
      → a.start ≤ a.end
      → now ≤ a.deadline
      → a.best ≡ none
      → a.pledges ≡ []
      → Change now (held a.seller) (on_sale a)
  raises :
      (a : Auction) (who price : ℕ)
      → now ≤ a.deadline
      → a.start ≤ price
      → price < a.end
      → Beats a.best price
      → Change now (on_sale a) (on_sale (record a { best = some (who, price) }))
  votes :
      (a : Auction) (who amount : ℕ)
      → now ≤ a.deadline
      → Change now (on_sale a) (on_sale (record a { pledges = a.pledges ++ (who, amount) ∷ [] }))
  buys_out :
      (a : Auction) (who price : ℕ)
      → now ≤ a.deadline
      → a.end ≤ price
      → Beats a.best price
      → Change now (on_sale a) (held who)
  wins :
      (a : Auction) (who price : ℕ)
      → a.deadline < now
      → a.best ≡ some (who, price)
      → Change now (on_sale a) (held who)
  returns :
      (a : Auction) → a.deadline < now → a.best ≡ none → Change now (on_sale a) (held a.seller)
  loses_bid :
      (a : Auction) → a.deadline < now → Change now (on_sale a) (on_sale (record a { best = none }))

abbrev pub best_of : Option Bid → Option (AccountId × ℕ)
best_of none = none
best_of (some bid) = some (bid.owner, bid.price)

abbrev pub pledge_of : Vote → AccountId × ℕ
pledge_of vote = (vote.owner, vote.amount)

abbrev pub auction : Order → Option Bid → List Vote → Auction
auction order bid votes_on = record {
  seller = order.owner;
  start = order.start_price;
  end = order.end_price;
  deadline = order.create_block + order.keep_block_num;
  best = best_of bid;
  pledges = map pledge_of votes_on;
}

abbrev pub item_of : Option Nft → AccountId → Option Auction → Item
item_of none owner a = absent
item_of (some nft) owner none = held owner
item_of (some nft) owner (some a) = on_sale a

abbrev pub auction_of : Option Order → Option Bid → List Vote → Option Auction
auction_of none bid votes_on = none
auction_of (some order) bid votes_on = some (auction order bid votes_on)

module _ {L : Type 0} where
  abbrev pub auction_at : State L → Option ℕ → Option Auction
  auction_at s none = none
  auction_at s (some o) = auction_of (s.orders o) (s.bids o) (s.votes o)

  -- What the storage says of an item.
  unfoldable pub view : State L → ℕ → Item
  view s n = item_of (s.nfts n) (s.nft_account n) (auction_at s (s.nft_order n))

  -- One item changes as it may, and the others not at all.
  abbrev pub Refines : State L → State L → Type 0
  Refines s t =
      (n : ℕ) × Change s.block_number (view s n) (view t n)
      × ((m : ℕ) → m ≢ n → view t m ≡ view s m)
