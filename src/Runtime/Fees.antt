-- ===== src/Runtime/Fees.antt =====
-- `impl pallet_transaction_payment::Trait for Runtime` of runtime/src/lib.rs, and what the calls of pallets/nft/src/lib.rs
-- cost with it.
use nft101_rust.Prelude.{ℕ, zero, suc, ◌+◌, ◌*◌, ◌^◌, ◌≤◌, ◌<◌, min, ◌≡◌, List, [], ◌∷◌, arith}
use nft101_rust.Nft.Dispatch.{Call}
use nft101_rust.Runtime.{cents, millicents, transaction_byte_fee, maximum_block_length}
use nft101_rust.Runtime.BlockWeights.{
  Perbill, Constants, call_weight, call_weight-eq, total_weight, maximum_block_weight,
  available_block_ratio, available_eq,
}

-- The trait. A multiplier of the fees is a value of `M`.
pub record PaymentConfig (M : Type 0) : Type 0 where
  pub transaction_byte_fee : ℕ
  pub weight_to_fee : ℕ → ℕ
  pub fee_multiplier_update : M → M

-- The module, with `IdentityFee` and `()` for the update of the multiplier. The multiplier is 1 in the beginning, and `()` does
-- not raise it above 1.
pub record Payment (M : Type 0) : Type 0 where
  pub one : M
  pub times : M → ℕ → ℕ
  pub identity_fee : ℕ → ℕ
  pub no_update : M → M
  pub compute_fee : PaymentConfig M → ℕ → ℕ → M → ℕ → ℕ → ℕ → ℕ
  pub times-one : (n : ℕ) → times one n ≡ n
  pub identity_fee-eq : (n : ℕ) → identity_fee n ≡ n
  pub no_update-le : (m : M) → ((n : ℕ) → times m n ≤ n) → (n : ℕ) → times (no_update m) n ≤ n
  pub compute_fee-eq :
      (c : PaymentConfig M) (base maximum : ℕ) (m : M) (len weight tip total : ℕ)
      → total
        ≡ c.weight_to_fee (min base maximum)
          + c.transaction_byte_fee * len
          + times m (c.weight_to_fee (min weight maximum))
          + tip
      → total < 2 ^ 128
      → compute_fee c base maximum m len weight tip ≡ total

-- A transaction with a call of the pallet, from its encoded length.
pub record Transaction : Type 0 where
  pub call : Call
  pub length : ℕ

abbrev pub total_length : List Transaction → ℕ
total_length [] = 0
total_length (t ∷ rest) = t.length + total_length rest

abbrev pub calls_of : List Transaction → List Call
calls_of [] = []
calls_of (t ∷ rest) = t.call ∷ calls_of rest

module _ {P M : Type 0} (perbill : Perbill P) (k : Constants) (p : Payment M) where
  abbrev pub payment_config : PaymentConfig M
  payment_config = record {
    transaction_byte_fee = transaction_byte_fee;
    weight_to_fee = p.identity_fee;
    fee_multiplier_update = p.no_update;
  }

  -- The multiplier after some blocks, each of which updates it.
  unfoldable pub multiplier : ℕ → M
  multiplier zero = p.one
  multiplier (suc n) = payment_config.fee_multiplier_update (multiplier n)

  -- What a transaction without a tip pays after some blocks.
  abbrev pub fee : ℕ → Transaction → ℕ
  fee blocks t =
      p.compute_fee payment_config k.extrinsic_base_weight (maximum_block_weight perbill k)
        (multiplier blocks) t.length (call_weight perbill k t.call) 0

  abbrev pub fees : ℕ → List Transaction → ℕ
  fees blocks [] = 0
  fees blocks (t ∷ rest) = fee blocks t + fees blocks rest

  multiplier-le : (blocks n : ℕ) → p.times (multiplier blocks) n ≤ n
  unfolding multiplier
  multiplier-le zero n = omega (arith, p.times-one n)
  multiplier-le (suc blocks) n =
      p.no_update-le (multiplier blocks) (λ n'. multiplier-le blocks n') n

  fee-le :
      (blocks : ℕ) (t : Transaction)
      → t.length ≤ maximum_block_length
      → fee blocks t ≤ 225010000 + t.length
  fee-le blocks t short =
      let weight = call_weight perbill k t.call in
      let adjusted : ℕ =
        p.times (multiplier blocks)
          (p.identity_fee (min weight (maximum_block_weight perbill k))) in
      let below : adjusted ≤ weight = omega (
        arith,
        multiplier-le blocks (p.identity_fee (min weight (maximum_block_weight perbill k))),
        p.identity_fee-eq (min weight (maximum_block_weight perbill k)),
      ) in
      let base = p.identity_fee-eq (min k.extrinsic_base_weight (maximum_block_weight perbill k)) in
      let exact =
        p.compute_fee-eq payment_config k.extrinsic_base_weight (maximum_block_weight perbill k)
          (multiplier blocks) t.length weight 0 (125000000 + t.length + adjusted)
          (omega (arith, base, k.second_eq, k.base_eq))
          (omega (arith, short, below, call_weight-eq perbill k t.call)) in
      omega (arith, exact, below, call_weight-eq perbill k t.call)

  -- The fees are at most the weight and the length together.
  fees-le :
      (blocks : ℕ) (txs : List Transaction)
      → total_length txs ≤ maximum_block_length
      → fees blocks txs ≤ total_weight perbill k (calls_of txs) + total_length txs
  fees-le blocks [] short = omega arith
  fees-le blocks (t ∷ rest) short = omega (
    arith,
    fee-le blocks t (omega (arith, short)),
    fees-le blocks rest (omega (arith, short)),
    k.base_eq,
    call_weight-eq perbill k t.call,
  )

  -- Under the settings of the runtime for the fees, whatever the number of blocks that have updated their multiplier: a
  -- transaction with a call of the pallet that fits in a block by its length costs less than a quarter of a millicent, and
  -- all those with which the available part of a block is filled, by weight and length, cost less than one and a half cents
  -- together. A tip is not counted.
  pub block_fees-lt :
      (blocks : ℕ) (txs : List Transaction)
      → k.block_execution_weight + total_weight perbill k (calls_of txs)
        ≤ perbill.times (available_block_ratio perbill k) (maximum_block_weight perbill k)
      → total_length txs ≤ maximum_block_length
      → (2 * fees blocks txs < 3 * cents)
        × ((t : Transaction) → t.length ≤ maximum_block_length → 4 * fee blocks t < millicents)
  block_fees-lt blocks txs fits short = (
    omega (arith, fees-le blocks txs short, fits, short, available_eq perbill k, k.execution_eq),
    λ t le. omega (arith, fee-le blocks t le, le),
  )
