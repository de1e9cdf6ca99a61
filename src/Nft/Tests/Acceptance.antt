-- ===== src/Nft/Tests/Acceptance.antt =====
-- A bid that pallets/nft/src/lib.rs accepts.
use nft101_rust.Prelude.{◌≡◌, refl, some}
use mathlib.Core.Logic.{◌↔◌}
use nft101_rust.Nft.Types.{State, DispatchError}
use nft101_rust.Nft.Effects.{done, failed, panicked}
use nft101_rust.Nft.Dispatch.{dispatch, order_buy}
use nft101_rust.Nft.Calls as Calls
use nft101_rust.Nft.States.{outbid}
use nft101_rust.Nft.Acceptance.{Accepted, Panics}
use nft101_rust.Nft.Reasons.{Reason}
use nft101_rust.Nft.Acceptance.Outcomes.{dispatch_outcomes}
use nft101_rust.Nft.Tests.Ledger.{Book, lock}
use nft101_rust.Nft.Tests.Data.{host, config, first_bid, with_vote}

-- Account 3 bids more than account 2 has.
abbrev outbidden : State Book
outbidden =
    outbid host 0 (some first_bid) (record { order_id = 0; price = 150; owner = 3 })
      (lock 3 150 with_vote.ledger) with_vote

outbidden_run : dispatch host config 3 (order_buy 0 150) with_vote ≡ done tt outbidden
unfolding dispatch Calls.order_buy
outbidden_run = refl

dispatch_outcomes_example :
    ((t : State Book)
      → (dispatch host config 3 (order_buy 0 150) with_vote ≡ done tt t)
        ↔ Accepted host config 3 (order_buy 0 150) with_vote t)
    × ((dispatch host config 3 (order_buy 0 150) with_vote ≡ panicked)
        ↔ Panics host config 3 (order_buy 0 150) with_vote)
    × ((e : DispatchError) (t : State Book)
        → dispatch host config 3 (order_buy 0 150) with_vote ≡ failed e t
        → Reason host config 3 with_vote (order_buy 0 150) e)
dispatch_outcomes_example = dispatch_outcomes host config 3 (order_buy 0 150) with_vote
