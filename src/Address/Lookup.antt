-- ===== src/Address/Lookup.antt =====
-- The two directions of `AccountIdLookup` of runtime/src/multiaddress.rs.
use mathlib.Core.Logic.{◌↔◌}
use mathlib.Core.Option.{some-injective}
use nft101_rust.Prelude.{◌≡◌, ap, some}
use nft101_rust.Address.{
  MultiAddress, account_id, account_index, raw_bytes, address32, address20, lookup, unlookup,
}

module _ {A I : Type 0} where
  -- The lookup of an address gives an account just if the address is the one that the account is looked
  -- up as: no address in another format names an account, and no account has two addresses.
  pub lookup-unlookup : (x : MultiAddress A I) (a : A) → (lookup x ≡ some a) ↔ (x ≡ unlookup a)
  unfolding lookup unlookup
  lookup-unlookup (account_id i) a = ((λ e. ap account_id (some-injective _ _ e)), λ e. ap lookup e)
  lookup-unlookup (account_index _) a = ((λ e. cc), λ e. cc)
  lookup-unlookup (raw_bytes _) a = ((λ e. cc), λ e. cc)
  lookup-unlookup (address32 _) a = ((λ e. cc), λ e. cc)
  lookup-unlookup (address20 _) a = ((λ e. cc), λ e. cc)
