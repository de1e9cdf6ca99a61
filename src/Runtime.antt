-- ===== src/Runtime.antt =====
-- The constants of runtime/src/lib.rs, and the configuration of the pallets with them.
pub mod Numbers
pub mod Prices
pub mod Fits
pub mod Weights
pub mod Sales
pub mod Settlement
pub mod Limits
pub mod Apis
pub mod BlockWeights
pub mod Fees
pub mod Tests
use nft101_rust.Prelude.{ℕ, ◌+◌, ◌-◌, ◌*◌, ◌/◌, ◌^◌}
use nft101_rust.Nft.Types.{Config}

-- Time is measured by number of blocks, `u32`.
abbrev pub millisecs_per_block : ℕ
millisecs_per_block = 6000

abbrev pub slot_duration : ℕ
slot_duration = millisecs_per_block

abbrev pub minutes : ℕ
minutes = 60000 / millisecs_per_block

abbrev pub hours : ℕ
hours = minutes * 60

abbrev pub days : ℕ
days = hours * 24

-- Balances are `u128`.
abbrev pub millicents : ℕ
millicents = 1000000000

abbrev pub cents : ℕ
cents = 1000 * millicents

abbrev pub dollars : ℕ
dollars = 100 * cents

-- The constants of the other pallets.
abbrev pub block_hash_count : ℕ
block_hash_count = 2400

abbrev pub maximum_block_length : ℕ
maximum_block_length = 5 * 1024 * 1024

abbrev pub minimum_period : ℕ
minimum_period = slot_duration / 2

abbrev pub existential_deposit : ℕ
existential_deposit = 500

abbrev pub max_locks : ℕ
max_locks = 50

abbrev pub transaction_byte_fee : ℕ
transaction_byte_fee = 1

-- `impl pallet_nft::Trait for Runtime`. The rates are both the `f64` nearest to 0.2, which is
-- `rate`; blocks are `u32`, the identifiers `u128`.
unfoldable pub runtime_config : {F : Type 0} → F → ℕ → Config F
runtime_config rate default_account = record {
  min_keep_block_number = 1 * hours;
  max_keep_block_number = 2 * days;
  minimum_price = 1 * dollars;
  minimum_voting_lock = 1 * cents;
  fix_rate = rate;
  profit_rate = rate;
  day_block_num = days;
  max_nft_id = 2 ^ 128 - 1;
  max_order_id = 2 ^ 128 - 1;
  max_block_number = 2 ^ 32 - 1;
  default_account = default_account;
}
