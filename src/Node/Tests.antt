-- ===== src/Node/Tests.antt =====
-- The chains of node/src/chain_spec.rs with numbers as keys, and the nodes of node/src/service.rs.
use Prim.Native.String.{String, len}
use text.Mathlib.Text.{◌==◌}
use mathlib.Core.Logic.{◌↔◌}
use nft101_rust.Node.Rpc.{Rpc, or_else, rpc_extensions_builder, IsServed, method-IsServed}
use nft101_rust.Prelude.{
  ℕ, ◌≡◌, refl, inl, Bool, true, false, Option, none, some, List, [], ◌∷◌, All, if◌then◌else◌,
}
use nft101_rust.Node.ChainSpec.{
  Keys, Spec, Result, ok, GenesisConfig, genesis_of, development, development_config,
  testnet_genesis,
}
use nft101_rust.Node.ChainSpec.Genesis.{IsUsable}
use nft101_rust.Node.Command.{load_spec, load_spec-IsUsable}
use nft101_rust.Node.Calls.{Action, spawn_tasks, aura_import_queue}
use nft101_rust.Node.Running.{run, did, is_none}
use nft101_rust.Node.Service.{Configuration, new_full, run_node}
use nft101_rust.Node.Service.Roles.{IsAllowed, starts_network, makes_blocks, votes, skips_votes}
use nft101_rust.Node.Service.Starting.{starts_when_complete, node_calls-IsAllowed, full_roles}

-- A key is the length of its seed.
abbrev key : String → Option ℕ
key seed = some (len seed)

abbrev itself : ℕ → ℕ
itself n = n

abbrev keys : Keys ℕ ℕ ℕ ℕ
keys = record {
  sr25519_from_string = key;
  aura_from_string = key;
  grandpa_from_string = key;
  into_account = itself;
}

abbrev dev_genesis : GenesisConfig ℕ ℕ ℕ
dev_genesis = testnet_genesis (1 ∷ []) ((7, 7) ∷ []) 7 (7 ∷ 5 ∷ 14 ∷ 12 ∷ [])

abbrev dev_spec : Spec ℕ ℕ ℕ
dev_spec = record {
  spec_name = "Development";
  spec_id = "dev";
  chain_type = development;
  genesis = some dev_genesis;
}

dev_run : development_config keys (some (1 ∷ [])) ≡ ok dev_spec
unfolding development_config genesis_of testnet_genesis
dev_run = refl

-- Any file is read as the development chain.
abbrev any_file : String → Result (Spec ℕ ℕ ℕ)
any_file path = ok dev_spec

load_dev : load_spec keys any_file (some (1 ∷ [])) "dev" ≡ ok dev_spec
unfolding load_spec development_config genesis_of testnet_genesis
load_dev = refl

load_file : load_spec keys any_file none "chain.json" ≡ ok dev_spec
unfolding load_spec
load_file = refl

load_spec-IsUsable_example : IsUsable (1 ∷ []) dev_genesis
load_spec-IsUsable_example =
    load_spec-IsUsable keys any_file (1 ∷ []) "dev" dev_spec dev_genesis (inl refl) load_dev refl

-- The roles: whether it is an authority, and no light client.
abbrev same : Bool → Bool
same b = b

abbrev never : Bool → Bool
never b = false

abbrev validator : Configuration Bool
validator = record {
  role = true;
  offchain_worker_enabled = true;
  force_authoring = false;
  disable_grandpa = false;
}

-- Nothing fails, and the tasks fail.
abbrev fine : List Action → Action → Option ℕ
fine past a = none

abbrev no_tasks : List Action → Action → Option ℕ
no_tasks past a = elim a.function [ spawn_tasks ↦ some 3 | _ ↦ none ]

starts_when_complete_example :
    did starts_network (run no_tasks [] (run_node same same never validator)).trace
    ≡ is_none (run no_tasks [] (run_node same same never validator)).error
starts_when_complete_example = starts_when_complete same same no_tasks never validator

node_calls-IsAllowed_example :
    All
      (IsAllowed same same never validator)
      (run no_tasks [] (run_node same same never validator)).trace
node_calls-IsAllowed_example = node_calls-IsAllowed same same no_tasks never validator

no_error : (run fine [] (new_full same same validator)).error ≡ none
unfolding new_full
no_error = refl

full_roles_example :
    (did makes_blocks (run fine [] (new_full same same validator)).trace ≡ true)
    × (did votes (run fine [] (new_full same same validator)).trace ≡ true)
    × (did skips_votes (run fine [] (new_full same same validator)).trace ≡ false)
full_roles_example = full_roles same same fine validator no_error

-- A command line whose import queue cannot be made.
abbrev queue_fails : List Action → Action → Option ℕ
queue_fails past a = elim a.function [ aura_import_queue ↦ some 7 | _ ↦ none ]

-- Methods as their names' lengths: the system has all, those of the fees are named `fee`.
abbrev no_method : String → Option ℕ
no_method name = none

abbrev later_first : (String → Option ℕ) → (String → Option ℕ) → String → Option ℕ
later_first io delegate name = or_else (delegate name) (io name)

abbrev system_methods : ℕ → ℕ → Bool → String → Option ℕ
system_methods client pool deny_unsafe name = if deny_unsafe then none else some (len name)

abbrev fee_methods : ℕ → String → Option ℕ
fee_methods client name = if name == "fee" then some client else none

abbrev methods : Rpc ℕ ℕ Bool ℕ (String → Option ℕ)
methods = record {
  default = no_method;
  extend_with = later_first;
  method = λ io. io;
  full_system = system_methods;
  transaction_payment = fee_methods;
  method-default = λ name. refl;
  method-extend_with = λ io delegate name. refl;
}

method-IsServed_example :
    (rpc_extensions_builder methods 9 8 false "name" ≡ some 4) ↔ IsServed methods 9 8 false "name" 4
method-IsServed_example = method-IsServed methods 9 8 false "name" 4
