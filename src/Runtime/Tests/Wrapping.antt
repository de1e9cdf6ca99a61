-- ===== src/Runtime/Tests/Wrapping.antt =====
-- A payout of pallets/nft/src/lib.rs under the configuration of runtime/src/lib.rs in a build without overflow checks.
use nft101_rust.Prelude.{ℕ, ◌*◌, ◌-◌, ◌^◌, ◌<◌, ◌≡◌, All, refl, sym, some, [], ◌∷◌, arith}
use Prim.Native.Nat.{◌%◌}
use nft101_rust.Nft.Types.{Vote}
use nft101_rust.Nft.Payout.{
  algorithm, terms, weigh_votes, weigh_vote, vote_weight, next_rate, no_weights, pay_votes,
  share_of,
}
use mathlib.Core.Option.{some-injective}
use nft101_rust.Nft.Payout.Reference.{ref_algorithm}
use nft101_rust.Nft.Payout.Reference.Votes.{Narrow, Computes}
use nft101_rust.Nft.Payout.Reference.Payments.{algorithm_reference}
use nft101_rust.Nft.Tests.Numbers.{wrapped_numbers}
use nft101_rust.Nft.Tests.Ledger.{Book, lock, unlock, move}
use nft101_rust.Nft.Tests.Data.{wrapped_host}
use nft101_rust.Runtime.{runtime_config}
use nft101_rust.Runtime.Prices.{fifth_raw}
use nft101_rust.Runtime.Tests.Sales.{listing}

-- Two votes of 20,000 and of 50,000 dollars.
abbrev small_vote : Vote
small_vote = record { order_id = 0; amount = 2 * 10 ^ 18; keep_block_num = 600; owner = 3 }

abbrev large_vote : Vote
large_vote = record { order_id = 0; amount = 5 * 10 ^ 18; keep_block_num = 600; owner = 4 }

abbrev wealthy : Book
wealthy = record { free = λ a. 10 ^ 19; reserved = λ a. 0 }

abbrev pledged_book : Book
pledged_book = lock 4 (5 * 10 ^ 18) (lock 3 (2 * 10 ^ 18) wealthy)

abbrev paid_out : Book
paid_out =
    move 1 4 8272201287329312
      (unlock 4 (5 * 10 ^ 18) (move 1 3 3630439995193447 (unlock 3 (2 * 10 ^ 18) pledged_book)))

pays :
    algorithm wrapped_host
      (runtime_config fifth_raw 0)
      listing
      9700000000000000
      (small_vote ∷ large_vote ∷ [])
      pledged_book
    ≡ some paid_out
unfolding algorithm terms weigh_votes weigh_vote vote_weight next_rate no_weights pay_votes share_of
    runtime_config
pays = refl

-- The seller pays more than the whole price.
pays_too_much : 9700000000000000 < pledged_book.free 1 - paid_out.free 1
pays_too_much = omega arith

-- A price of 200,000 dollars is paid out as one of 15,532 dollars.
paid_as_less :
    algorithm wrapped_host
      (runtime_config fifth_raw 0)
      listing
      (20 * 10 ^ 18)
      (small_vote ∷ large_vote ∷ [])
      pledged_book
    ≡ algorithm wrapped_host
        (runtime_config fifth_raw 0)
        listing
        1553255926290448384
        (small_vote ∷ large_vote ∷ [])
        pledged_book
unfolding algorithm terms weigh_votes weigh_vote vote_weight next_rate no_weights pay_votes share_of
    runtime_config
paid_as_less = refl

-- The reference computes the same, where each result is taken modulo 2^128.
abbrev modulo : ℕ → ℕ
modulo n = n % 2 ^ 128

wrapped-Computes : Computes wrapped_numbers modulo
wrapped-Computes = record {
  raw-from_int = λ n x e. sym (some-injective _ _ e);
  raw-add = λ x y z e. sym (some-injective _ _ e);
  raw-mul = λ x y z e. sym (some-injective _ _ e);
  raw-div = λ x y z e. ground arith;
}

both-Narrow : All Narrow (small_vote ∷ large_vote ∷ [])
both-Narrow = (
  record { amount_lt = omega arith; blocks_lt = omega arith },
  (record { amount_lt = omega arith; blocks_lt = omega arith }, tt),
)

pays_as_reference :
    paid_out
    ≡ ref_algorithm wrapped_host modulo fifth_raw fifth_raw 14400 600 1 9700000000000000
        (small_vote ∷ large_vote ∷ [])
        pledged_book
unfolding runtime_config
pays_as_reference =
    algorithm_reference wrapped_host modulo wrapped-Computes (runtime_config fifth_raw 0) listing
      9700000000000000 (small_vote ∷ large_vote ∷ []) pledged_book paid_out fifth_raw fifth_raw
      both-Narrow (omega arith) (omega arith) (omega arith) refl refl pays
