-- ===== src/Nft/Tests/Runs.antt =====
-- The test states are what the calls lead to.
use nft101_rust.Prelude.{ℕ, ◌+◌, ◌≤◌, ◌≡◌, refl, [], ◌∷◌, arith}
use nft101_rust.Nft.Types.{State, module_error, Error}
use nft101_rust.Nft.Effects.{done, failed}
use nft101_rust.Nft.Dispatch.{
  Call, create, remove, order_sell, order_buy, vote_order, dispatch, Reach, here, next, calls,
  next_block, succeeds,
}
use nft101_rust.Nft.Calls as Calls
use nft101_rust.Nft.WellFormed.{WellFormed}
use nft101_rust.Nft.WellFormed.Always.{reach-WellFormed}
use nft101_rust.Nft.Backing.{Backed}
use nft101_rust.Nft.Backing.Always.{reach-Backed}
use nft101_rust.Nft.Tests.Ledger.{Book}
use nft101_rust.Nft.Tests.Data.{
  host, config, start, with_item, with_order, with_bid, with_vote, book, last_block, with_late_vote,
  voted_only, unsold, expired, expired_late, with_other, other_vote, other_last, other_late,
  payable, payable_late,
}

run_create :
    dispatch host config 1 (create (116 ∷ []) (117 ∷ []) (100 ∷ [])) start ≡ done tt with_item
unfolding dispatch Calls.create
run_create = refl

run_sell : dispatch host config 1 (order_sell 0 100 200 2) with_item ≡ done tt with_order
unfolding dispatch Calls.order_sell
run_sell = refl

run_bid : dispatch host config 2 (order_buy 0 120) with_order ≡ done tt with_bid
unfolding dispatch Calls.order_buy
run_bid = refl

run_vote : dispatch host config 3 (vote_order 0 10) with_bid ≡ done tt with_vote
unfolding dispatch Calls.vote_order
run_vote = refl

-- The seller cannot take a listed item back.
run_remove :
    dispatch host config 1 (remove 0) with_vote
    ≡ failed (module_error Error.nft_order_exist) with_vote
unfolding dispatch Calls.remove
run_remove = refl

run_late : dispatch host config 4 (vote_order 0 10) last_block ≡ done tt with_late_vote
unfolding dispatch Calls.vote_order
run_late = refl

run_vote_only : dispatch host config 3 (vote_order 0 10) with_order ≡ done tt voted_only
unfolding dispatch Calls.vote_order
run_vote_only = refl

run_other : dispatch host config 5 (order_buy 0 120) with_order ≡ done tt with_other
unfolding dispatch Calls.order_buy
run_other = refl

run_other_vote : dispatch host config 3 (vote_order 0 10) with_other ≡ done tt other_vote
unfolding dispatch Calls.vote_order
run_other_vote = refl

run_other_late : dispatch host config 4 (vote_order 0 10) other_last ≡ done tt other_late
unfolding dispatch Calls.vote_order
run_other_late = refl

-- One step more at the end of a history: a call, or blocks that pass.
abbrev calls_once :
    (o : ℕ) (call : Call) {s t : State Book}
    → Reach host config start s
    → dispatch host config o call s ≡ done tt t
    → Reach host config start t
calls_once o call r e = next r (calls o call (succeeds e))

abbrev tick :
    {s : State Book}
    → Reach host config start s
    → s.block_number + 1 ≤ config.max_block_number
    → Reach host config start (record s { block_number = s.block_number + 1 })
tick r room = next r (next_block room refl)

pub reach_item : Reach host config start with_item
reach_item = calls_once 1 (create (116 ∷ []) (117 ∷ []) (100 ∷ [])) here run_create

reach_order : Reach host config start with_order
reach_order = calls_once 1 (order_sell 0 100 200 2) reach_item run_sell

pub reach_vote : Reach host config start with_vote
reach_vote =
    calls_once 3 (vote_order 0 10) (calls_once 2 (order_buy 0 120) reach_order run_bid) run_vote

reach_last : Reach host config start last_block
reach_last = tick (tick reach_vote (omega arith)) (omega arith)

pub reach_expired : Reach host config start expired
reach_expired = tick reach_last (omega arith)

pub reach_late : Reach host config start with_late_vote
reach_late = calls_once 4 (vote_order 0 10) reach_last run_late

pub reach_expired_late : Reach host config start expired_late
reach_expired_late = tick reach_late (omega arith)

pub reach_unsold : Reach host config start unsold
reach_unsold =
    tick
      (tick (tick (calls_once 3 (vote_order 0 10) reach_order run_vote_only) (omega arith))
        (omega arith))
      (omega arith)

reach_other : Reach host config start other_vote
reach_other =
    calls_once 3 (vote_order 0 10) (calls_once 5 (order_buy 0 120) reach_order run_other)
      run_other_vote

reach_other_last : Reach host config start other_last
reach_other_last = tick (tick reach_other (omega arith)) (omega arith)

pub reach_payable : Reach host config start payable
reach_payable = tick reach_other_last (omega arith)

pub reach_payable_late : Reach host config start payable_late
reach_payable_late =
    tick (calls_once 4 (vote_order 0 10) reach_other_last run_other_late) (omega arith)

pub valid : {s : State Book} → Reach host config start s → WellFormed config s
valid {s} r = reach-WellFormed host config 5 book s r

pub backed : {s : State Book} → Reach host config start s → Backed host (λ a. 0) s
backed {s} r = reach-Backed host config (λ a. 0) 5 book s (λ a. refl) r
