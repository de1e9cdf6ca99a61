-- ===== src/Nft/Mock/Tests.antt =====
-- pallets/nft/src/tests.rs: the tests of the pallet, in the runtime of pallets/nft/src/mock.rs.
use nft101_rust.Prelude.{
  ℕ, ◌≤◌, ◌<◌, ◌≡◌, ◌⊎◌, refl, none, some, is_some, true, List, [], ◌∷◌, ◌==◌, if◌then◌else◌, arith,
}
use nft101_rust.Frame.{AccountId}
use nft101_rust.Nft.Types.{State, Order, Event, Error, Config, module_error}
use nft101_rust.Nft.Effects.{done, failed}
use nft101_rust.Nft.Payout.{algorithm}
use nft101_rust.Nft.Guards.{new_order}
use nft101_rust.Nft.States.{created, removed, transferred, listed, completed}
use nft101_rust.Nft.Calls as Calls
use nft101_rust.Nft.Dispatch.{dispatch, create, remove, transfer, order_sell, order_buy}
use nft101_rust.Nft.Tests.Ledger.{Book, move}
use nft101_rust.Nft.Tests.Data.{host, art, first_vote}
use nft101_rust.Nft.Mock.{mock_config, new_test_ext, run_to_block, Hooks, next_block}
use nft101_rust.Nft.Mock.Blocks.{KeepsBlock, run_to_block_ends}
use nft101_rust.Nft.Mock.Payouts.{mock_payout_panics}

abbrev free_in : List (AccountId × ℕ) → AccountId → ℕ
free_in [] a = 0
free_in ((b, n) ∷ rest) a = let n' = free_in rest a in if a == b then n else n'

abbrev book_of : List (AccountId × ℕ) → Book
book_of balances = record { free = free_in balances; reserved = λ a. 0 }

abbrev mock : Config ℕ
mock = mock_config 0

abbrev ext : State Book
ext = new_test_ext {F = ℕ} book_of 0

abbrev nothing : ℕ → State Book → State Book
nothing n s = s

abbrev no_hooks : Hooks (State Book)
no_hooks = record {
  nft_on_finalize = nothing;
  system_on_finalize = nothing;
  system_on_initialize = nothing;
  nft_on_initialize = nothing;
}

no_hooks-KeepsBlock : KeepsBlock nothing
no_hooks-KeepsBlock = record { same_block = λ n s. refl }

abbrev block_10 : State Book
block_10 = record (new_test_ext {F = ℕ} book_of 0) { block_number = 10 }

run_to_10 : run_to_block no_hooks 9 10 ext ≡ some block_10
unfolding run_to_block next_block new_test_ext mock_config
run_to_10 = refl

run_to_block_ends_example :
    (t : State Book) × (run_to_block no_hooks 9 10 ext ≡ some t)
    × (((ext.block_number ≤ 10) × (t.block_number ≡ 10)) ⊎ ((10 < ext.block_number) × (t ≡ ext)))
unfolding new_test_ext
run_to_block_ends_example =
    run_to_block_ends no_hooks no_hooks-KeepsBlock no_hooks-KeepsBlock no_hooks-KeepsBlock
      no_hooks-KeepsBlock 9 10 ext (omega arith)

abbrev item : State Book
item = created 1 art block_10

abbrev order : Order
order = new_order 1 0 100 200 200 item

abbrev on_sale : State Book
on_sale = listed order item

test_ntf_create : dispatch host mock 1 (create art.title art.url art.desc) block_10 ≡ done tt item
unfolding dispatch Calls.create mock_config new_test_ext
test_ntf_create = refl

test_ntf_create_state :
    (item.events ≡ Event.nft_created 1 0 ∷ [])
    × (is_some (item.nfts 0) ≡ true)
    × (item.nft_account 0 ≡ 1)
unfolding mock_config new_test_ext
test_ntf_create_state = (refl, refl, refl)

test_ntf_remove_success : dispatch host mock 1 (remove 0) item ≡ done tt (removed 0 1 0 item)
unfolding dispatch Calls.remove mock_config new_test_ext
test_ntf_remove_success = refl

test_ntf_remove_not_exist :
    dispatch host mock 1 (remove 0) block_10 ≡ failed (module_error Error.nft_id_not_exist) block_10
unfolding dispatch Calls.remove mock_config new_test_ext
test_ntf_remove_not_exist = refl

test_ntf_remove_not_owner :
    dispatch host mock 2 (remove 0) item ≡ failed (module_error Error.not_nft_owner) item
unfolding dispatch Calls.remove mock_config new_test_ext
test_ntf_remove_not_owner = refl

test_nft_remove_order_exist :
    dispatch host mock 1 (remove 0) on_sale ≡ failed (module_error Error.nft_order_exist) on_sale
unfolding dispatch Calls.remove mock_config new_test_ext
test_nft_remove_order_exist = refl

test_ntf_transfer_success :
    dispatch host mock 1 (transfer 2 0) item ≡ done tt (transferred 1 2 0 item)
unfolding dispatch Calls.transfer mock_config new_test_ext
test_ntf_transfer_success = refl

test_ntf_transfer_not_owner :
    dispatch host mock 2 (transfer 3 0) item ≡ failed (module_error Error.not_nft_owner) item
unfolding dispatch Calls.transfer mock_config new_test_ext
test_ntf_transfer_not_owner = refl

test_nft_transfer_order_exist :
    dispatch host mock 1 (transfer 2 0) on_sale
    ≡ failed (module_error Error.nft_order_exist) on_sale
unfolding dispatch Calls.transfer mock_config new_test_ext
test_nft_transfer_order_exist = refl

test_order_sell_success : dispatch host mock 1 (order_sell 0 100 200 200) item ≡ done tt on_sale
unfolding dispatch Calls.order_sell mock_config new_test_ext
test_order_sell_success = refl

abbrev long_order : Order
long_order = new_order 1 0 100 200 10000 item

abbrev on_long_sale : State Book
on_long_sale = listed long_order item

test_order_buy_success :
    dispatch host mock 2 (order_buy 0 200) on_long_sale
    ≡ done tt (completed long_order 2 (move 2 1 200 on_long_sale.ledger) on_long_sale)
unfolding dispatch Calls.order_buy mock_config new_test_ext Calls.order_complete algorithm
test_order_buy_success = refl

mock_payout_panics_example : algorithm host mock order 150 (first_vote ∷ []) block_10.ledger ≡ none
mock_payout_panics_example =
    mock_payout_panics host 0 order 150 (first_vote ∷ []) block_10.ledger (λ e. cc)
