-- ===== src/Node/Calls.antt =====
-- The calls of Substrate that node/src/service.rs and node/src/command.rs make: each with what it is
-- given, in the order of the source, and with the components that are bound to its result. A component
-- is named like the variable that holds it; an accessor or a handle of it that is passed on, such as
-- `task_manager.spawn_handle()`, counts as the component.
use nft101_rust.Prelude.{ℕ, Bool, Option, List}
use nft101_rust.Node.Cli.{Subcommand}

-- The parts of a node. `duration` and `can_author_with` are not bound to a variable in `new_partial`.
pub data Component : Type 0 where
  inherent_data_providers client backend keystore task_manager on_demand : Component
  select_chain transaction_pool grandpa_block_import grandpa_link aura_block_import : Component
  finality_proof_request_builder duration can_author_with import_queue : Component
  finality_proof_provider network network_status_sinks system_rpc_tx network_starter : Component
  telemetry_connection_sinks proposer aura grandpa_voter : Component

-- What is passed on of the configuration.
pub data Setting : Type 0 where
  whole_config chain_spec network_config database transaction_pool_config : Setting
  prometheus_registry node_name : Setting

-- `sc_finality_grandpa::Config`
pub record GrandpaConfig : Type 0 where
  pub gossip_duration_millis : ℕ
  pub justification_period : ℕ
  pub name : Option Setting
  pub observer_enabled : Bool
  pub keystore : Option Component
  pub is_authority : Bool

-- An argument. The default values are `TelemetryConnectionSinks::default()` of a light node, the
-- default voting rule, and the empty state of the voter.
pub data Argument : Type 0 where
  part : Component → Argument
  some_part : Component → Argument
  nothing : Argument
  setting : Setting → Argument
  flag : Bool → Argument
  grandpa : GrandpaConfig → Argument
  default_value never_can_author no_extensions : Argument
  rpc_extensions : Component → Component → Argument

-- The functions that are called.
pub data Function : Type 0 where
  inherent_data_providers_new new_full_parts new_light_parts longest_chain_new : Function
  pool_new_full pool_new_light block_import light_block_import : Function
  create_finality_proof_request_builder aura_block_import_new slot_duration : Function
  can_author_with_native_version_new aura_import_queue new_for_service build_network : Function
  build_offchain_workers telemetry_connection_sinks_default spawn_tasks : Function
  proposer_factory_new start_aura spawn_aura run_grandpa_voter spawn_grandpa_voter : Function
  setup_disabled_grandpa start_network create_runner run_until_exit : Function
  run_command : Subcommand → Function

pub record Action : Type 0 where
  pub function : Function
  pub arguments : List Argument
  pub makes : List Component
