-- ===== src/Nft/Guards.antt =====
-- What the dispatchables of pallets/nft/src/lib.rs have checked when they reach their end.
use nft101_rust.Prelude.{ℕ, ◌+◌, ◌-◌, ◌≤◌, ◌<◌, ◌≡◌, Option, none, some}
use nft101_rust.Frame.{AccountId, Host, accepted}
use nft101_rust.Nft.Types.{State, Nft, Order, Bid, Config}

-- What every call that reaches its end on an existing order has found.
pub record OnOrder {O L F N : Type 0} (h : Host O L F N) (origin : O) (s : State L) (order_id : ℕ)
    (who : AccountId) (order : Order) : Type 0 where
  pub signer : h.ensure_signed origin ≡ accepted who
  pub found : s.orders order_id ≡ some order
  pub started : order.create_block ≤ s.block_number

-- A bid beats the one that stands, if any.
abbrev pub Outbids : Option Bid → ℕ → Type 0
Outbids none price = Unit
Outbids (some bid) price = bid.price < price

-- What a sale has checked.
pub record SellGuards {O L F N : Type 0} (h : Host O L F N) (c : Config F) (origin : O)
    (s : State L) (who : AccountId) (order : Order) : Type 0 where
  pub signer : h.ensure_signed origin ≡ accepted who
  pub keep_le : order.keep_block_num ≤ c.max_keep_block_number
  pub keep_ge : c.min_keep_block_number ≤ order.keep_block_num
  pub exists : (nft : Nft) × (s.nfts order.nft_id ≡ some nft)
  pub owned : s.nft_account order.nft_id ≡ who
  pub unlisted : s.nft_order order.nft_id ≡ none
  pub price_ge : c.minimum_price ≤ order.start_price
  pub price_le : order.start_price ≤ order.end_price
  pub room : s.next_order_id + 1 ≤ c.max_order_id

-- What a bid has checked.
pub record BuyGuards {O L F N : Type 0} (h : Host O L F N) (c : Config F) (origin : O) (s : State L)
    (order_id price : ℕ) (who : AccountId) (order : Order) : Type 0 where
  pub on : OnOrder h origin s order_id who order
  pub open on use *
  pub running : s.block_number - order.create_block ≤ order.keep_block_num
  pub price_ge : c.minimum_price ≤ price
  pub start_le : order.start_price ≤ price
  pub outbids : Outbids (s.bids order_id) price

-- The order that a sale makes.
abbrev pub new_order : {L : Type 0} → AccountId → ℕ → ℕ → ℕ → ℕ → State L → Order
new_order who n start_price end_price keep s = record {
  order_id = s.next_order_id;
  start_price = start_price;
  end_price = end_price;
  nft_id = n;
  create_block = s.block_number;
  keep_block_num = keep;
  owner = who;
}
