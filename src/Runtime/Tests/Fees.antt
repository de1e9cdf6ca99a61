-- ===== src/Runtime/Tests/Fees.antt =====
-- The fees of two transactions under runtime/src/lib.rs.
use nft101_rust.Prelude.{ℕ, ◌+◌, ◌-◌, ◌*◌, ◌/◌, ◌^◌, ◌≤◌, ◌<◌, min, ◌≡◌, refl, List, [], ◌∷◌, arith}
use nft101_rust.Nft.Dispatch.{order_buy, order_settlement}
use nft101_rust.Runtime.{cents, millicents}
use nft101_rust.Runtime.BlockWeights.{call_weight}
use nft101_rust.Runtime.Fees.{
  PaymentConfig, Payment, Transaction, multiplier, fee, fees, block_fees-lt,
}
use nft101_rust.Runtime.Tests.BlockWeights.{perbill, constants}

-- A multiplier in parts of 10^18.
abbrev parts_of : ℕ → ℕ → ℕ
parts_of m n = m * n / 10 ^ 18

abbrev itself : ℕ → ℕ
itself n = n

-- The sum, which stops at the greatest balance.
abbrev sum_of_fees : PaymentConfig ℕ → ℕ → ℕ → ℕ → ℕ → ℕ → ℕ → ℕ
sum_of_fees c base maximum m len weight tip =
    min
      (c.weight_to_fee (min base maximum)
        + c.transaction_byte_fee * len
        + parts_of m (c.weight_to_fee (min weight maximum))
        + tip)
      (2 ^ 128 - 1)

abbrev payment : Payment ℕ
payment = record {
  one = 10 ^ 18;
  times = parts_of;
  identity_fee = itself;
  no_update = itself;
  compute_fee = sum_of_fees;
  times-one = λ n. omega arith;
  identity_fee-eq = λ n. refl;
  no_update-le = λ m below n. below n;
  compute_fee-eq = λ c base maximum m len weight tip total e lt. omega (arith, e, lt);
}

abbrev bid_and_settlement : List Transaction
bid_and_settlement =
    record { call = order_buy 0 150; length = 150 }
    ∷ record { call = order_settlement 0; length = 120 }
    ∷ []

fees_run : fees perbill constants payment 1 bid_and_settlement ≡ 450020270
unfolding multiplier call_weight
fees_run = refl

block_fees-lt_example :
    (2 * fees perbill constants payment 1 bid_and_settlement < 3 * cents)
    × ((t : Transaction) → t.length ≤ 5242880 → 4 * fee perbill constants payment 1 t < millicents)
unfolding call_weight
block_fees-lt_example =
    block_fees-lt perbill constants payment 1 bid_and_settlement (omega arith) (omega arith)
