-- ===== src/Address/Display.antt =====
-- The `Display` instance of addresses in runtime/src/multiaddress.rs, over `HexDisplay` and the derived `Debug`.
use Prim.Native.String.{String, ◌++◌}
use nft101_rust.Prelude.{ℕ, zero, suc, List, [], ◌∷◌}
use nft101_rust.Address.{
  Bytes, MultiAddress, account_id, account_index, raw_bytes, address32, address20,
}

-- The bytes of an array.
abbrev pub bytes : (n : ℕ) → Bytes n → List ℕ
bytes zero _ = []
bytes (suc n) (b, bs) = b ∷ bytes n bs

module _ {A I : Type 0} (hex_display : List ℕ → String) (debug : MultiAddress A I → String) where
  -- `fmt`
  unfoldable pub display : MultiAddress A I → String
  display (raw_bytes inner) = ("MultiAddress::Raw(" ++ hex_display inner) ++ ")"
  display (address32 inner) = ("MultiAddress::Address32(" ++ hex_display (bytes 32 inner)) ++ ")"
  display (address20 inner) = ("MultiAddress::Address20(" ++ hex_display (bytes 20 inner)) ++ ")"
  display (account_id a) = debug (account_id a)
  display (account_index i) = debug (account_index i)
