-- ===== src/Nft/Types.antt =====
-- The types of pallets/nft/src/lib.rs: the structs, the storage, the events and the errors.
use nft101_rust.Prelude.{ℕ, Option, List}
use nft101_rust.Frame.{AccountId, ForeignError}

-- `Order`. Identifiers, balances and block numbers are unsigned; their types' bounds are in `Config`.
pub record Order : Type 0 where
  pub order_id : ℕ
  pub start_price : ℕ
  pub end_price : ℕ
  pub nft_id : ℕ
  pub create_block : ℕ
  pub keep_block_num : ℕ
  pub owner : AccountId

-- `Nft`, with the bytes as numbers.
pub record Nft : Type 0 where
  pub title : List ℕ
  pub url : List ℕ
  pub desc : List ℕ

pub record Bid : Type 0 where
  pub order_id : ℕ
  pub price : ℕ
  pub owner : AccountId

pub record Vote : Type 0 where
  pub order_id : ℕ
  pub amount : ℕ
  pub keep_block_num : ℕ
  pub owner : AccountId

-- The constants of `Trait`, the greatest values of its types and the default account.
pub record Config (F : Type 0) : Type 0 where
  pub min_keep_block_number : ℕ
  pub max_keep_block_number : ℕ
  pub minimum_price : ℕ
  pub minimum_voting_lock : ℕ
  pub fix_rate : F
  pub profit_rate : F
  pub day_block_num : ℕ
  pub max_nft_id : ℕ
  pub max_order_id : ℕ
  pub max_block_number : ℕ
  pub default_account : AccountId

pub data Event : Type 0 where
  nft_created : AccountId → ℕ → Event
  nft_remove : AccountId → ℕ → Event
  nft_transfer : AccountId → AccountId → ℕ → Event
  order_sell : AccountId → ℕ → Event
  order_buy : AccountId → ℕ → Event
  order_complete : AccountId → ℕ → Event
  order_cancel : AccountId → ℕ → Event

pub data Error : Type 0 where
  nft_id_not_exist nft_id_overflow not_nft_owner nft_order_exist order_not_exist : Error
  order_price_illegal order_price_too_small keep_block_num_too_big keep_block_num_too_small : Error
  is_time_to_settlement is_not_time_to_settlement order_id_overflow order_id_not_exist : Error
  block_number_overflow price_too_low start_price_too_low vote_amount_too_low : Error

-- `DispatchError`: an error of the pallet, or one that it passes on.
pub data DispatchError : Type 0 where
  module_error : Error → DispatchError
  foreign : ForeignError → DispatchError

-- The storage of the pallet, with what it reads and writes elsewhere: the block number, the
-- ledger of the balances pallet and the events that the pallet itself deposits, newest last. A missing entry of
-- `nft_account` reads as the default account, one of `votes` as the empty list.
pub record State (L : Type 0) : Type 0 where
  pub nfts : ℕ → Option Nft
  pub nft_account : ℕ → AccountId
  pub nft_order : ℕ → Option ℕ
  pub orders : ℕ → Option Order
  pub bids : ℕ → Option Bid
  pub votes : ℕ → List Vote
  pub next_nft_id : ℕ
  pub next_order_id : ℕ
  pub block_number : ℕ
  pub ledger : L
  pub events : List Event
