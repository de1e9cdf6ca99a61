-- ===== src/Nft/Acceptance/Checks.antt =====
-- The tests of pallets/nft/src/lib.rs on numbers, where they pass.
use nft101_rust.Prelude.{
  ℕ, ◌+◌, ◌-◌, ◌≤◌, ◌<◌, ◌≡◌, some, true, false, ltb, leb, ◌==◌, checked_add, checked_sub, arith,
}

pub le→leb : (a b : ℕ) → a ≤ b → leb a b ≡ true
le→leb a b h = ground arith

pub lt→ltb : (a b : ℕ) → a < b → ltb a b ≡ true
lt→ltb a b h = ground arith

pub le→ltb : (a b : ℕ) → b ≤ a → ltb a b ≡ false
le→ltb a b h = ground arith

pub lt→leb : (a b : ℕ) → b < a → leb a b ≡ false
lt→leb a b h = ground arith

pub eq→== : (a b : ℕ) → a ≡ b → (a == b) ≡ true
eq→== a b h = ground arith

pub le→checked_add : (top a b : ℕ) → a + b ≤ top → checked_add top a b ≡ some (a + b)
le→checked_add top a b h = ground arith

pub le→checked_sub : (a b : ℕ) → b ≤ a → checked_sub a b ≡ some (a - b)
le→checked_sub a b h = ground arith
