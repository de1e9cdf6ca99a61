-- ===== src/Runtime/Tests.antt =====
-- A listing under the configuration of runtime/src/lib.rs.
pub mod Sales
mod Wrapping
mod Benchmarks
mod BlockWeights
mod Fees
use nft101_rust.Prelude.{ℕ, ◌*◌, ◌/◌, ◌^◌, ◌≤◌, ◌≡◌, refl, All}
use nft101_rust.Nft.Types.{State, Order}
use nft101_rust.Nft.Effects.{done}
use nft101_rust.Nft.Guards.{new_order}
use nft101_rust.Nft.States.{created, listed}
use nft101_rust.Nft.Calls as Calls
use nft101_rust.Nft.Dispatch.{
  Reach, here, next, calls, genesis, dispatch, create, order_sell, succeeds,
}
use nft101_rust.Nft.Tests.Ledger.{Book}
use nft101_rust.Nft.Tests.Data.{host, book, art}
use nft101_rust.Runtime.{runtime_config, millisecs_per_block, dollars, cents}
use nft101_rust.Runtime.Limits.{open_order_limits}

abbrev fifth : ℕ
fifth = 2 ^ 64 / 5

abbrev begin : State Book
begin = genesis (runtime_config fifth 0) 5 book

abbrev made : State Book
made = created 1 art begin

abbrev listing : Order
listing = new_order 1 0 100000000000000 200000000000000 600 made

abbrev on_sale : State Book
on_sale = listed listing made

made_by :
    dispatch host (runtime_config fifth 0) 1 (create art.title art.url art.desc) begin
    ≡ done tt made
unfolding dispatch Calls.create runtime_config
made_by = refl

listed_by :
    dispatch host (runtime_config fifth 0) 1 (order_sell 0 100000000000000 200000000000000 600) made
    ≡ done tt on_sale
unfolding dispatch Calls.order_sell runtime_config
listed_by = refl

reach_on_sale : Reach host (runtime_config fifth 0) begin on_sale
reach_on_sale =
    next (next here (calls 1 (create art.title art.url art.desc) (succeeds made_by)))
      (calls 1 (order_sell 0 100000000000000 200000000000000 600) (succeeds listed_by))

open_order_limits_example :
    (3600000 ≤ 600 * millisecs_per_block)
    × (600 * millisecs_per_block ≤ 172800000)
    × (dollars ≤ 100000000000000)
    × (dollars ≤ 200000000000000)
    × All (λ vote. cents ≤ vote.amount) (on_sale.votes 0)
open_order_limits_example =
    open_order_limits host fifth 0 5 book on_sale 0 listing reach_on_sale refl
