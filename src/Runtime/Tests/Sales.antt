-- ===== src/Runtime/Tests/Sales.antt =====
-- Two auctions under the configuration of runtime/src/lib.rs: each with a vote of a cent, one with a bid of a dollar and
-- one with a bid of 5,100 dollars.
use nft101_rust.Prelude.{ℕ, zero, suc, ◌+◌, ◌-◌, ◌^◌, ◌≤◌, ◌≡◌, refl, none, arith}
use nft101_rust.Prelude.{subst}
use nft101_rust.Nft.Types.{State, Order, Bid, Vote}
use nft101_rust.Nft.Effects.{done, panicked}
use nft101_rust.Nft.Guards.{new_order}
use nft101_rust.Nft.States.{created, listed, outbid, voted}
use nft101_rust.Nft.Calls as Calls
use nft101_rust.Nft.Dispatch.{
  Call, Reach, here, next, calls, next_block, genesis, dispatch, create, order_sell, order_buy,
  vote_order, order_settlement, succeeds,
}
use nft101_rust.Nft.Trading.Selling.{IsSold}
use nft101_rust.Nft.Tests.Ledger.{Book, lock}
use nft101_rust.Nft.Tests.Data.{host, art}
use nft101_rust.Runtime.{runtime_config}
use nft101_rust.Runtime.Prices.{fifth_raw}
use nft101_rust.Nft.Tests.Numbers.{checked}
use nft101_rust.Runtime.Settlement.{settlement_completes, dear_settlement_panics}

abbrev pub rich : Book
rich = record { free = λ a. 10 ^ 18; reserved = λ a. 0 }

abbrev pub begin : State Book
begin = genesis (runtime_config fifth_raw 0) 5 rich

abbrev pub made : State Book
made = created 1 art begin

abbrev pub listing : Order
listing = new_order 1 0 100000000000000 1000000000000000000 600 made

abbrev on_sale : State Book
on_sale = listed listing made

abbrev vote : Vote
vote = record { order_id = 0; amount = 1000000000000; keep_block_num = 600; owner = 3 }

abbrev with_vote : State Book
with_vote = voted 0 vote (lock 3 1000000000000 rich) on_sale

abbrev bid_of : ℕ → Bid
bid_of price = record { order_id = 0; price = price; owner = 2 }

abbrev with_bid : ℕ → State Book
with_bid price = outbid host 0 none (bid_of price) (lock 2 price with_vote.ledger) with_vote

abbrev ended : ℕ → State Book
ended price = record (with_bid price) { block_number = 606 }

abbrev History : State Book → Type 0
History t = Reach host (runtime_config fifth_raw 0) begin t

abbrev call_once :
    (o : ℕ) (call : Call) {s t : State Book}
    → History s
    → dispatch host (runtime_config fifth_raw 0) o call s ≡ done tt t
    → History t
call_once o call r e = next r (calls o call (succeeds e))

made_by :
    dispatch host (runtime_config fifth_raw 0) 1 (create art.title art.url art.desc) begin
    ≡ done tt made
unfolding dispatch Calls.create runtime_config
made_by = refl

listed_by :
    dispatch host
      (runtime_config fifth_raw 0)
      1
      (order_sell 0 100000000000000 1000000000000000000 600)
      made
    ≡ done tt on_sale
unfolding dispatch Calls.order_sell runtime_config
listed_by = refl

voted_by :
    dispatch host (runtime_config fifth_raw 0) 3 (vote_order 0 1000000000000) on_sale
    ≡ done tt with_vote
unfolding dispatch Calls.vote_order runtime_config
voted_by = refl

bid_by :
    dispatch host (runtime_config fifth_raw 0) 2 (order_buy 0 100000000000000) with_vote
    ≡ done tt (with_bid 100000000000000)
unfolding dispatch Calls.order_buy runtime_config
bid_by = refl

dear_bid_by :
    dispatch host (runtime_config fifth_raw 0) 2 (order_buy 0 510000000000000000) with_vote
    ≡ done tt (with_bid 510000000000000000)
unfolding dispatch Calls.order_buy runtime_config
dear_bid_by = refl

-- Some blocks pass.
wait :
    (n m : ℕ) (s : State Book)
    → m ≡ s.block_number + n
    → m ≤ 2 ^ 32 - 1
    → History s
    → History (record s { block_number = m })
unfolding runtime_config
wait zero m s e room r =
    subst (λ (k : ℕ). History (record s { block_number = k })) (omega (arith, e)) r
wait (suc n) m s e room r =
    subst (λ (k : ℕ). History (record s { block_number = k })) (omega (arith, e))
      (next (wait n (s.block_number + n) s refl (omega (arith, e, room)) r)
        (next_block (omega (arith, e, room)) refl))

reach_vote : History with_vote
reach_vote =
    call_once 3 (vote_order 0 1000000000000)
      (call_once 1 (order_sell 0 100000000000000 1000000000000000000 600)
        (call_once 1 (create art.title art.url art.desc) here made_by) listed_by)
      voted_by

reach_end : History (ended 100000000000000)
reach_end =
    wait 601 606 (with_bid 100000000000000) refl (omega arith)
      (call_once 2 (order_buy 0 100000000000000) reach_vote bid_by)

reach_dear_end : History (ended 510000000000000000)
reach_dear_end =
    wait 601 606 (with_bid 510000000000000000) refl (omega arith)
      (call_once 2 (order_buy 0 510000000000000000) reach_vote dear_bid_by)

settlement_completes_example :
    (t : State Book) × (dispatch host
        (runtime_config fifth_raw 0)
        4
        (order_settlement 0)
        (ended 100000000000000)
      ≡ done tt t)
    × IsSold 0 listing 2 t
settlement_completes_example =
    settlement_completes host fifth_raw 0 fifth_raw 4 4 0 5 listing (bid_of 100000000000000) rich _
      (ended 100000000000000) refl refl reach_end refl refl refl (omega arith) refl (omega arith)
      (omega arith, tt) (omega arith)

dear_settlement_panics_example :
    dispatch host (runtime_config fifth_raw 0) 4 (order_settlement 0) (ended 510000000000000000)
    ≡ panicked
dear_settlement_panics_example =
    dear_settlement_panics host fifth_raw 0 fifth_raw 4 4 0 5 listing (bid_of 510000000000000000)
      rich _ (ended 510000000000000000) checked refl refl reach_dear_end refl refl refl
      (omega arith) refl (omega arith) (omega arith) (λ e. cc)
