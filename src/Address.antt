-- ===== src/Address.antt =====
-- runtime/src/multiaddress.rs: the address formats, and the lookup that the runtime uses.
pub mod Lookup
pub mod Display
pub mod Tests
use nft101_rust.Prelude.{ℕ, zero, suc, Option, none, some, List}

-- `[u8; n]`, with the bytes as numbers.
abbrev pub Bytes : ℕ → Type 0
Bytes zero = Unit
Bytes (suc n) = ℕ × Bytes n

-- `MultiAddress<AccountId, AccountIndex>`
pub data MultiAddress (A I : Type 0) : Type 0 where
  account_id : A → MultiAddress A I
  account_index : I → MultiAddress A I
  raw_bytes : List ℕ → MultiAddress A I
  address32 : Bytes 32 → MultiAddress A I
  address20 : Bytes 20 → MultiAddress A I

module _ {A I : Type 0} where
  -- `From<AccountId>`
  unfoldable pub from : A → MultiAddress A I
  from a = account_id a

  -- `Default`, from the default account.
  unfoldable pub default : A → MultiAddress A I
  default default_account = account_id default_account

  -- `lookup`; `none` is `LookupError`.
  unfoldable pub lookup : MultiAddress A I → Option A
  lookup (account_id i) = some i
  lookup _ = none

  unfoldable pub unlookup : A → MultiAddress A I
  unlookup x = account_id x
