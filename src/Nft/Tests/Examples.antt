-- ===== src/Nft/Tests/Examples.antt =====
-- The theorems about pallets/nft/src/lib.rs at the test states.
use nft101_rust.Prelude.{
  ℕ, ◌+◌, ◌-◌, ◌*◌, ◌/◌, ◌^◌, ◌≤◌, ◌≡◌, ◌⊎◌, inl, inr, refl, some, [], ◌∷◌, ◌++◌, arith,
}
use nft101_rust.Frame.{AccountId, accepted}
use nft101_rust.Nft.Types.{State, Event, foreign}
use nft101_rust.Nft.Effects.{done, failed, panicked}
use nft101_rust.Nft.Parts.{clean_order_bid}
use nft101_rust.Nft.Calls as Calls
use nft101_rust.Nft.Calls.{order_complete}
use nft101_rust.Nft.Payout.{
  algorithm, terms, weigh_votes, weigh_vote, vote_weight, next_rate, no_weights, pay_votes,
  share_of,
}
use nft101_rust.Nft.Dispatch.{
  dispatch, After, Ends, order_buy, order_sell, order_settlement, vote_order,
}
use nft101_rust.Nft.Market.{Refines}
use nft101_rust.Nft.Market.History.{IsLife, lived, reach-IsLife}
use nft101_rust.Nft.Market.Refined.{dispatch-Refines}
use nft101_rust.Nft.WellFormed.{WellFormed}
use nft101_rust.Nft.WellFormed.Always.{reach-WellFormed}
use nft101_rust.Nft.Backing.{Backed}
use nft101_rust.Nft.Backing.Always.{reach-Backed}
use nft101_rust.Nft.Trading.Paying.{PaidOut}
use nft101_rust.Nft.Trading.Earnings.{earnings, voters_paid}
use nft101_rust.Nft.Payout.Profit.{payout_bounded}
use nft101_rust.Nft.Payout.Reference.{ref_algorithm, ref_votes}
use nft101_rust.Nft.Payout.Reference.Votes.{Narrow, Checked-Computes}
use nft101_rust.Nft.Payout.Reference.Payments.{algorithm_reference}
use nft101_rust.Nft.Tests.Numbers.{checked_numbers, checked}
use nft101_rust.Nft.Trading.{OnSuccess, OnFailure}
use nft101_rust.Nft.Trading.Atomic.{Undone, dispatch-Undone}
use nft101_rust.Nft.Trading.Owners.{Moved, dispatch-Moved}
use nft101_rust.Nft.Trading.Bidding.{Sold, Leads, buy_outcome}
use nft101_rust.Nft.Trading.Moving.{MovesFunds, dispatch-MovesFunds}
use nft101_rust.Nft.Trading.Settling.{
  sale_pays_seller, IsDropped, failed_settlement_drops, settlement_events,
}
use nft101_rust.Nft.Trading.Listing.{Listed, sell_outcome}
use nft101_rust.Nft.Trading.Voting.{Voted, vote_outcome}
use nft101_rust.Nft.Trading.LateVotes.{IsUnsold, WouldSell, late_never_sold}
use nft101_rust.Nft.Tests.Ledger.{Book, lock, unlock, move, try_move}
use nft101_rust.Nft.Tests.Data.{
  host, config, book, order, first_bid, first_vote, with_vote, last_block, expired, payable,
  payable_late, other_bid, settled, with_item,
}
use nft101_rust.Nft.Tests.Runs.{
  reach_item, reach_vote, reach_expired, reach_payable, reach_payable_late, valid, backed,
}

abbrev nobody : AccountId → ℕ
nobody a = 0

reach-WellFormed_example : WellFormed config with_vote
reach-WellFormed_example = reach-WellFormed host config 5 book with_vote reach_vote

reach-Backed_example : Backed host nobody with_vote
reach-Backed_example = reach-Backed host config nobody 5 book with_vote (λ a. refl) reach_vote

dispatch-Moved_example :
    After (Moved host config 2 0 with_vote) (dispatch host config 2 (order_buy 0 200) with_vote)
dispatch-Moved_example =
    dispatch-Moved host config 2 (order_buy 0 200) 0 with_vote (valid reach_vote) refl

dispatch-Undone_example :
    OnFailure
      (Undone host config (order_settlement 0) expired)
      (dispatch host config 5 (order_settlement 0) expired)
dispatch-Undone_example = dispatch-Undone host config 5 (order_settlement 0) expired

buy_outcome_example :
    OnSuccess
      (λ t. Sold host config 3 0 150 with_vote t ⊎ Leads host config 3 0 150 with_vote t)
      (dispatch host config 3 (order_buy 0 150) with_vote)
buy_outcome_example =
    buy_outcome host config 3 3 0 150 nobody with_vote refl (valid reach_vote) (backed reach_vote)

dispatch-MovesFunds_example :
    After (MovesFunds host config 3 with_vote) (dispatch host config 3 (order_buy 0 150) with_vote)
dispatch-MovesFunds_example =
    dispatch-MovesFunds host config 3 (order_buy 0 150) with_vote (valid reach_vote)

failed_settlement_drops_example :
    (t : State Book) × (dispatch host config 5 (order_settlement 0) expired ≡ failed (foreign 2) t)
    × IsDropped host config 0 order first_bid expired t
failed_settlement_drops_example =
    failed_settlement_drops host config 5 5 0 order first_bid 2 nobody expired refl refl refl
      (omega arith) refl (valid reach_expired) (backed reach_expired)

sell_outcome_example :
    OnSuccess
      (Listed host config 1 0 100 200 2 with_item)
      (dispatch host config 1 (order_sell 0 100 200 2) with_item)
sell_outcome_example = sell_outcome host config 1 1 0 100 200 2 with_item refl (valid reach_item)

settled_run : dispatch host config 5 (order_settlement 0) payable ≡ done tt settled
unfolding dispatch Calls.order_settlement clean_order_bid Calls.order_complete algorithm terms
    weigh_votes weigh_vote vote_weight next_rate no_weights pay_votes share_of
settled_run = refl

settlement_events_example :
    settled.events
    ≡ (payable.events ++ Event.order_complete 5 0 ∷ []) ++ Event.order_complete 5 0 ∷ []
settlement_events_example =
    settlement_events host config 5 0 other_bid payable settled (valid reach_payable) refl
      settled_run

vote_outcome_example :
    OnSuccess
      (Voted host config 4 0 10 last_block)
      (dispatch host config 4 (vote_order 0 10) last_block)
vote_outcome_example = vote_outcome host config 4 4 0 10 last_block refl

late_never_sold_example :
    (dispatch host config 5 (order_settlement 0) payable_late ≡ panicked)
    ⊎ ((¬ WouldSell host config 5 (order_settlement 0) 0 payable_late)
        × ((t : State Book) × Ends (dispatch host config 5 (order_settlement 0) payable_late) t
            × IsUnsold host config 0 order payable_late t))
late_never_sold_example =
    late_never_sold host config 5 (order_settlement 0) 0 order payable_late
      (valid reach_payable_late) refl (inr (inl refl))

-- Account 5 has what it bid, so that the settlement would sell.
late_settlement_panics : dispatch host config 5 (order_settlement 0) payable_late ≡ panicked
unfolding dispatch Calls.order_settlement clean_order_bid Calls.order_complete algorithm terms
    weigh_votes weigh_vote vote_weight next_rate no_weights
late_settlement_panics = refl

sale_pays_seller_example :
    OnSuccess
      (λ t. (1000 + 200 - t.ledger.free 1) * 2 ^ 64 ≤ 2 ^ 64 / 5 * 200)
      (order_complete host config order 4 200 4 with_vote)
sale_pays_seller_example =
    sale_pays_seller host config order 4 200 4 with_vote (2 ^ 64 / 5) checked (omega arith) refl

abbrev paid_book : Book
paid_book = move 1 3 23 (unlock 3 10 (lock 3 10 book))

run_payout : algorithm host config order 120 (first_vote ∷ []) (lock 3 10 book) ≡ some paid_book
unfolding algorithm terms weigh_votes weigh_vote vote_weight next_rate no_weights pay_votes share_of
run_payout = refl

payout_bounded_example : ((lock 3 10 book).free 1 - paid_book.free 1) * 2 ^ 64 ≤ 2 ^ 64 / 5 * 120
payout_bounded_example =
    payout_bounded host checked config order 120 (first_vote ∷ []) (lock 3 10 book) paid_book
      (2 ^ 64 / 5) refl run_payout

first_vote-Narrow : Narrow first_vote
first_vote-Narrow = record { amount_lt = omega arith; blocks_lt = omega arith }

algorithm_reference_example :
    paid_book
    ≡ ref_algorithm host
        (λ n. n)
        (2 ^ 64 / 5)
        (2 ^ 64 / 5)
        100
        2
        1
        120
        (first_vote ∷ [])
        (lock 3 10 book)
algorithm_reference_example =
    algorithm_reference host (λ n. n) (Checked-Computes checked_numbers checked) config order 120
      (first_vote ∷ []) (lock 3 10 book) paid_book (2 ^ 64 / 5) (2 ^ 64 / 5) (first_vote-Narrow, tt)
      (omega arith) (omega arith) (omega arith) refl refl run_payout

book_accepts :
    (from to amount : ℕ) (l : Book)
    → amount + 1 ≤ l.free from
    → 1 ≤ l.free to
    → (l' : Book) × (try_move from to amount l ≡ accepted l')
book_accepts from to amount l enough alive = (move from to amount l, ground (arith, enough))

-- The only vote earns a fifth of the price, rounded down.
voter_earns :
    earnings host (2 ^ 64 / 5) (2 ^ 64 / 5) 100 2 120 (first_vote ∷ []) ≡ (first_vote, 23) ∷ []
unfolding ref_votes
voter_earns = refl

voters_paid_example :
    PaidOut host 1
      (2 ^ 64 / 5)
      120
      (first_vote ∷ [])
      (earnings host (2 ^ 64 / 5) (2 ^ 64 / 5) 100 2 120 (first_vote ∷ []))
      (lock 3 10 book)
      paid_book
voters_paid_example =
    voters_paid host 1 book_accepts config order 120 (first_vote ∷ []) (lock 3 10 book) paid_book
      (2 ^ 64 / 5) (2 ^ 64 / 5) checked refl refl (omega arith) (omega arith) (λ a. ground arith)
      (omega arith, tt) (first_vote-Narrow, tt) (omega arith) (omega arith) (omega arith) run_payout

dispatch-Refines_example :
    After (Refines with_vote) (dispatch host config 3 (order_buy 0 150) with_vote)
dispatch-Refines_example =
    dispatch-Refines host config with_vote (valid reach_vote) 3 (order_buy 0 150)

reach-IsLife_example : IsLife (lived host config 0 reach_expired)
reach-IsLife_example = reach-IsLife host config 5 book expired 0 reach_expired
