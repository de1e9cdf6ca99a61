-- ===== src/Runtime/BlockWeights.antt =====
-- The limits on blocks and transactions of runtime/src/lib.rs, and the weights that pallets/nft/src/lib.rs declares.
use nft101_rust.Prelude.{ℕ, ◌+◌, ◌-◌, ◌*◌, ◌^◌, ◌≤◌, ◌≡◌, List, [], ◌∷◌, arith}
use mathlib.Core.Logic.{◌↔◌}
use nft101_rust.Nft.Dispatch.{
  Call, create, remove, transfer, order_sell, order_buy, order_settlement, vote_order,
}

-- `Perbill`, in parts of 10^9. A product with a whole number of parts is exact.
pub record Perbill (P : Type 0) : Type 0 where
  pub parts : P → ℕ
  pub from_percent : ℕ → P
  pub saturating_sub : P → P → P
  pub times : P → ℕ → ℕ
  pub parts-from_percent : (n : ℕ) → n ≤ 100 → parts (from_percent n) ≡ n * 10 ^ 7
  pub parts-saturating_sub : (p q : P) → parts (saturating_sub p q) ≡ parts p - parts q
  pub times-exact : (p : P) (n q : ℕ) → parts p * n ≡ q * 10 ^ 9 → times p n ≡ q

-- The weights of `frame_support::weights::constants`.
pub record Constants : Type 0 where
  pub weight_per_second : ℕ
  pub block_execution_weight : ℕ
  pub extrinsic_base_weight : ℕ
  pub writes : ℕ → ℕ
  pub second_eq : weight_per_second ≡ 10 ^ 12
  pub execution_eq : block_execution_weight ≡ 5 * 10 ^ 9
  pub base_eq : extrinsic_base_weight ≡ 125 * 10 ^ 6
  pub writes_eq : (n : ℕ) → writes n ≡ n * 10 ^ 8

module _ {P : Type 0} (perbill : Perbill P) (k : Constants) where
  open perbill use {parts, from_percent, saturating_sub, times}

  abbrev pub maximum_block_weight : ℕ
  maximum_block_weight = 2 * k.weight_per_second

  abbrev pub available_block_ratio : P
  available_block_ratio = from_percent 75

  abbrev pub maximum_extrinsic_weight : ℕ
  maximum_extrinsic_weight =
      times (saturating_sub available_block_ratio (from_percent 10)) maximum_block_weight

  -- `#[weight = 10_000 + T::DbWeight::get().writes(1)]` of each call, with `DbWeight = RocksDbWeight`.
  unfoldable pub call_weight : Call → ℕ
  call_weight (create _ _ _) = 10000 + k.writes 1
  call_weight (remove _) = 10000 + k.writes 1
  call_weight (transfer _ _) = 10000 + k.writes 1
  call_weight (order_sell _ _ _ _) = 10000 + k.writes 1
  call_weight (order_buy _ _) = 10000 + k.writes 1
  call_weight (order_settlement _) = 10000 + k.writes 1
  call_weight (vote_order _ _) = 10000 + k.writes 1

  pub call_weight-eq : (call : Call) → call_weight call ≡ 10000 + 10 ^ 8
  unfolding call_weight
  call_weight-eq (create _ _ _) = omega (arith, k.writes_eq 1)
  call_weight-eq (remove _) = omega (arith, k.writes_eq 1)
  call_weight-eq (transfer _ _) = omega (arith, k.writes_eq 1)
  call_weight-eq (order_sell _ _ _ _) = omega (arith, k.writes_eq 1)
  call_weight-eq (order_buy _ _) = omega (arith, k.writes_eq 1)
  call_weight-eq (order_settlement _) = omega (arith, k.writes_eq 1)
  call_weight-eq (vote_order _ _) = omega (arith, k.writes_eq 1)

  -- The weight of transactions with these calls.
  abbrev pub total_weight : List Call → ℕ
  total_weight [] = 0
  total_weight (call ∷ calls) = k.extrinsic_base_weight + call_weight call + total_weight calls

  abbrev pub number : List Call → ℕ
  number [] = 0
  number (call ∷ calls) = 1 + number calls

  pub total_weight-eq : (calls : List Call) → total_weight calls ≡ number calls * 225010000
  total_weight-eq [] = omega arith
  total_weight-eq (call ∷ calls) =
      omega (arith, k.base_eq, call_weight-eq call, total_weight-eq calls)

  pub available_eq : times available_block_ratio maximum_block_weight ≡ 15 * 10 ^ 11
  available_eq =
      perbill.times-exact available_block_ratio maximum_block_weight (15 * 10 ^ 11)
        (rw (perbill.parts-from_percent 75 (omega arith), k.second_eq) (omega arith))

  extrinsic_eq : maximum_extrinsic_weight ≡ 13 * 10 ^ 11
  extrinsic_eq =
      perbill.times-exact (saturating_sub available_block_ratio (from_percent 10))
        maximum_block_weight (13 * 10 ^ 11)
        (rw
          (
            perbill.parts-saturating_sub available_block_ratio (from_percent 10),
            perbill.parts-from_percent 75 (omega arith),
            perbill.parts-from_percent 10 (omega arith),
            k.second_eq,
          )
          (omega arith))

  -- By their declared weights, transactions with calls of the pallet fit in the part of a block that is available, beside
  -- its execution, just if there are at most 6,644 of them; and each of them alone is below the limit of a transaction. The
  -- calls may be any, as also settlements of orders with any number of votes.
  pub calls_fit :
      (calls : List Call)
      → ((k.block_execution_weight + total_weight calls
            ≤ times available_block_ratio maximum_block_weight)
          ↔ (number calls ≤ 6644))
        × ((call : Call) → k.extrinsic_base_weight + call_weight call ≤ maximum_extrinsic_weight)
  calls_fit calls = (
    (
      λ le. omega (arith, le, available_eq, k.execution_eq, total_weight-eq calls),
      λ le. omega (arith, le, available_eq, k.execution_eq, total_weight-eq calls),
    ),
    λ call. omega (arith, extrinsic_eq, k.base_eq, call_weight-eq call),
  )
