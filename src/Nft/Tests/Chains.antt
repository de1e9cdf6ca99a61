-- ===== src/Nft/Tests/Chains.antt =====
-- Two votes in both orders; the counters of a chain, and the end of its order.
use mathlib.Core.Quot.{Quot}
use mathlib.Core.Quot
use nft101_rust.Prelude.{ℕ, ◌≤◌, ◌≡◌, ◌≢◌, ◌⊎◌, refl, List, [], ◌∷◌, arith}
use nft101_rust.Nft.Types.{Vote}
use nft101_rust.Nft.Parts.{unlock_votes}
use nft101_rust.Nft.Backing.{votes_held}
use nft101_rust.Nft.Backing.Pledges.{pledges_of, unlock_votes_unordered}
use nft101_rust.Nft.WellFormed.Ranges.{IsTyped, reach-IsTyped}
use nft101_rust.Nft.Effects.{panicked}
use nft101_rust.Nft.Dispatch.{dispatch, order_settlement}
use nft101_rust.Nft.Trading.Ending.{Closing, Retried, settlements_end}
use nft101_rust.Nft.Tests.Ledger.{Book, lock}
use nft101_rust.Nft.Tests.Data.{
  host, config, book, first_vote, late_vote, with_vote, order, expired,
}
use nft101_rust.Nft.Tests.Runs.{reach_vote, reach_expired, valid, backed}

abbrev one_way : List Vote
one_way = first_vote ∷ late_vote ∷ []

abbrev other_way : List Vote
other_way = late_vote ∷ first_vote ∷ []

abbrev both_locked : Book
both_locked = lock 4 10 (lock 3 10 book)

same_pledges : pledges_of one_way ≡ pledges_of other_way
same_pledges = Quot.sound (λ a. omega arith)

enough : (a : ℕ) → votes_held a one_way ≤ both_locked.reserved a
enough a = ground arith

unlock_votes_unordered_example :
    ((unlock_votes host one_way both_locked).free 3
      ≡ (unlock_votes host other_way both_locked).free 3)
    × ((unlock_votes host one_way both_locked).reserved 3
        ≡ (unlock_votes host other_way both_locked).reserved 3)
unlock_votes_unordered_example =
    unlock_votes_unordered host one_way other_way both_locked same_pledges enough 3

reach-IsTyped_example : IsTyped config with_vote
reach-IsTyped_example = reach-IsTyped host config 5 book with_vote (omega arith) reach_vote

settlements_end_example :
    Closing host config 5 0 expired
    ⊎ Retried host config 5 0 expired
    ⊎ ((dispatch host config 5 (order_settlement 0) expired ≡ panicked) × (expired.votes 0 ≢ []))
settlements_end_example =
    settlements_end host config 5 5 0 order (λ a. 0) expired refl refl (omega arith)
      (valid reach_expired) (backed reach_expired)
