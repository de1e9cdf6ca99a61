-- ===== src/Nft/Mock.antt =====
-- pallets/nft/src/mock.rs: the runtime in which the tests of the pallet run.
pub mod Blocks
pub mod Payouts
pub mod Tests
use nft101_rust.Prelude.{
  ℕ, zero, suc, ◌+◌, ◌-◌, ◌*◌, ◌/◌, ◌^◌, Option, none, some, List, [], ◌∷◌, ltb, if◌then◌else◌,
}
use nft101_rust.Frame.{AccountId}
use nft101_rust.Nft.Types.{Config, State}
use nft101_rust.Nft.Dispatch.{genesis}

-- `parameter_types!`. `FixRate`, `ProfitRate` and `DayBlockNum` are declared there too, but `Test` does not use them.
abbrev pub max_keep_block_number : ℕ
max_keep_block_number = 60 * 60 / 6 * 24 * 365

-- `impl Trait for Test`: `FixRate`, `ProfitRate` and `DayBlockNum` are `()`, which gives the default of each type. The
-- default of `f64` is an argument. The identifiers are `u32`, block numbers and accounts `u64`.
unfoldable pub mock_config : {F : Type 0} → F → Config F
mock_config default_float = record {
  min_keep_block_number = 1;
  max_keep_block_number = max_keep_block_number;
  minimum_price = 1;
  minimum_voting_lock = 1;
  fix_rate = default_float;
  profit_rate = default_float;
  day_block_num = 0;
  max_nft_id = 2 ^ 32 - 1;
  max_order_id = 2 ^ 32 - 1;
  max_block_number = 2 ^ 64 - 1;
  default_account = 0;
}

-- `new_test_ext`: the balances pallet makes the ledger from the balances of its genesis.
unfoldable pub new_test_ext : {L F : Type 0} → (List (AccountId × ℕ) → L) → F → State L
new_test_ext ledger_of default_float =
    genesis (mock_config default_float) 1
      (ledger_of ((1, 10000) ∷ (2, 11000) ∷ (3, 12000) ∷ (4, 13000) ∷ (5, 14000) ∷ []))

-- The hooks of the two pallets that `run_to_block` calls, which their crates or the macro of the pallet give.
pub record Hooks (S : Type 0) : Type 0 where
  pub nft_on_finalize : ℕ → S → S
  pub system_on_finalize : ℕ → S → S
  pub system_on_initialize : ℕ → S → S
  pub nft_on_initialize : ℕ → S → S

module _ {L : Type 0} (hooks : Hooks (State L)) where
  open hooks use {nft_on_finalize, system_on_finalize, system_on_initialize, nft_on_initialize}

  -- `System::block_number()` is read anew for each hook.
  abbrev at_block : (ℕ → State L → State L) → State L → State L
  at_block hook s = hook s.block_number s

  abbrev set_block_number : State L → State L
  set_block_number s = record s { block_number = s.block_number + 1 }

  -- The body of the loop.
  unfoldable pub next_block : State L → State L
  next_block s = at_block nft_on_initialize (
      at_block system_on_initialize
        (set_block_number (at_block system_on_finalize (at_block nft_on_finalize s))))

  -- `run_to_block(n)` in a number of rounds; `none` is a loop that is not done by then.
  unfoldable pub run_to_block : ℕ → ℕ → State L → Option (State L)
  run_to_block zero n s = if ltb s.block_number n then none else some s
  run_to_block (suc fuel) n s =
      let rest = run_to_block fuel n (next_block s) in if ltb s.block_number n then rest else some s
