-- ===== src/Nft/Tests/Rates.antt =====
-- The exchange rate of `Module::algorithm` of pallets/nft/src/lib.rs over two votes.
use nft101_rust.Prelude.{ℕ, ◌*◌, arith, ◌/◌, ◌^◌, ◌≤◌, ◌≡◌, refl, Option, some, none, [], ◌∷◌}
use nft101_rust.Nft.Types.{Vote}
use nft101_rust.Nft.Payout.{
  Weights, weigh_vote, weigh_votes, vote_weight, next_rate, no_weights, Terms, terms, algorithm,
}
use nft101_rust.Nft.Payout.Rate.{rate_falls}
use nft101_rust.Nft.Payout.Within.{Weighs}
use nft101_rust.Nft.Payout.Complete.{payout_returns}
use nft101_rust.Nft.Tests.Numbers.{checked}
use nft101_rust.Nft.Tests.Ledger.{Book}
use nft101_rust.Nft.Tests.Data.{host, config, order, book, first_vote}

-- The terms of the sale of the test order for 120, and the votes of accounts 3 and 4.
abbrev blocks : ℕ
blocks = 100 * 2 ^ 64

abbrev day : ℕ
day = 2 ^ 64 / 50

abbrev stock : ℕ
stock = 438000 * 2 ^ 64

abbrev second_vote : Vote
second_vote = record { order_id = 0; amount = 20; keep_block_num = 1; owner = 4 }

abbrev or_nothing : Option (Weights ℕ) → Weights ℕ
unfolding no_weights
or_nothing none = no_weights host 0
or_nothing (some w) = w

abbrev weighed_one : Weights ℕ
unfolding weigh_vote vote_weight next_rate no_weights
weighed_one =
    or_nothing (weigh_vote host (2 ^ 64 / 5) blocks day stock first_vote (no_weights host 0))

abbrev weighed_two : Weights ℕ
unfolding weigh_votes weigh_vote vote_weight next_rate
weighed_two =
    or_nothing (weigh_votes host (2 ^ 64 / 5) blocks day stock (second_vote ∷ []) weighed_one)

weigh_one :
    weigh_vote host (2 ^ 64 / 5) blocks day stock first_vote (no_weights host 0) ≡ some weighed_one
unfolding weigh_vote vote_weight next_rate no_weights
weigh_one = refl

weigh_two :
    weigh_votes host (2 ^ 64 / 5) blocks day stock (second_vote ∷ []) weighed_one ≡ some weighed_two
unfolding weigh_votes weigh_vote vote_weight next_rate weighed_one
weigh_two = refl

rate_falls_example : weighed_two.weight_rate ≤ weighed_one.weight_rate
rate_falls_example =
    rate_falls host checked (2 ^ 64 / 5) blocks day stock first_vote (second_vote ∷ [])
      (no_weights host 0) weighed_one weighed_two weigh_one weigh_two

-- The payout of the same sale returns.
abbrev sale_terms : Terms host
sale_terms = record {
  fix_rate = 2 ^ 64 / 5;
  profit_rate = 2 ^ 64 / 5;
  day_block_num = blocks;
  bid_price = 120 * 2 ^ 64;
  day = 2 ^ 64 / 50;
  stock = (2 ^ 64 / 5 * 120 * 2 ^ 64 / (2 ^ 64 / 50)) * 365;
}

sale_terms_eq : terms host config order 120 ≡ some sale_terms
unfolding terms
sale_terms_eq = refl

abbrev first_weight : ℕ
first_weight = 10 * 2 ^ 64

first_vote-Weighs :
    Weighs host (2 ^ 64 / 5) blocks (2 ^ 64 / 50) sale_terms.stock (2 ^ 64 / 5 * 120) first_vote
unfolding vote_weight
first_vote-Weighs = record {
  weight = first_weight;
  weight_eq = refl;
  weight_ge = omega arith;
  weight_le = omega arith;
}

payout_returns_example :
    (paid : Book) × (algorithm host config order 120 (first_vote ∷ []) book ≡ some paid)
payout_returns_example =
    payout_returns host config order 120 (2 ^ 64 / 5 * 120) (first_vote ∷ []) book sale_terms
      sale_terms_eq (first_vote-Weighs, tt) (omega arith) (omega arith) (omega arith)
