-- ===== src/Address/Tests.antt =====
-- The lookup and the texts of runtime/src/multiaddress.rs at test addresses.
use mathlib.Core.Logic.{◌↔◌}
use nft101_rust.Prelude.{◌==◌, if◌then◌else◌, ℕ, ◌≡◌, refl, none, some, [], ◌∷◌}
use nft101_rust.Address.{MultiAddress, account_id, raw_bytes, from, lookup, unlookup}
use Prim.Native.String.{String}
use nft101_rust.Prelude.{List}
use nft101_rust.Address.Display.{display}
use nft101_rust.Address.Lookup.{lookup-unlookup}

abbrev alice : MultiAddress ℕ Unit
alice = account_id 7

abbrev raw_alice : MultiAddress ℕ Unit
raw_alice = raw_bytes (7 ∷ [])

lookup_raw : lookup raw_alice ≡ none
unfolding lookup
lookup_raw = refl

lookup_from : lookup {A = ℕ} {I = Unit} (from 7) ≡ some 7
unfolding lookup from
lookup_from = refl

lookup-unlookup_example : (lookup alice ≡ some 7) ↔ (alice ≡ unlookup 7)
lookup-unlookup_example = lookup-unlookup alice 7

abbrev some_hex : List ℕ → String
some_hex [] = ""
some_hex (b ∷ bs) = if b == 7 then "07" else "00"

abbrev some_debug : MultiAddress ℕ Unit → String
some_debug (account_id a) = if a == 7 then "Id(7)" else "Id(0)"
some_debug _ = "Index(())"

display_raw : display some_hex some_debug raw_alice ≡ "MultiAddress::Raw(07)"
unfolding display
display_raw = refl

display-alice : display some_hex some_debug alice ≡ "Id(7)"
unfolding display
display-alice = refl
