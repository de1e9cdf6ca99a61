-- ===== src/Node/Service/Full.antt =====
-- `new_partial` and `new_full` of node/src/service.rs.
use nft101_rust.Prelude.{Bool, true, false, none, some, List, [], ◌∷◌, ◌++◌, if◌then◌else◌}
use nft101_rust.Node.Calls.{
  inherent_data_providers, client, backend, keystore, task_manager, select_chain, transaction_pool,
  grandpa_block_import, grandpa_link, aura_block_import, duration, can_author_with, import_queue,
  finality_proof_provider, network, network_status_sinks, system_rpc_tx, telemetry_connection_sinks,
  proposer, aura, grandpa_voter, whole_config, transaction_pool_config, prometheus_registry,
  node_name, GrandpaConfig, part, some_part, nothing, setting, flag, grandpa, default_value,
  rpc_extensions, inherent_data_providers_new, new_full_parts, longest_chain_new, pool_new_full,
  block_import, aura_block_import_new, slot_duration, can_author_with_native_version_new,
  aura_import_queue, new_for_service, build_network, telemetry_connection_sinks_default,
  spawn_tasks, proposer_factory_new, start_aura, spawn_aura, run_grandpa_voter, spawn_grandpa_voter,
  setup_disabled_grandpa,
}
use nft101_rust.Node.Running.{Part}
use nft101_rust.Node.Service.Parts.{before, after, networking, offchain_part}

-- From whether the role is an authority, and `force_authoring`.
abbrev pub aura_part : Bool → Bool → List Part
aura_part true force_authoring =
    before proposer_factory_new
      (part client ∷ part transaction_pool ∷ setting prometheus_registry ∷ []) (proposer ∷ [])
    ∷ before can_author_with_native_version_new (part client ∷ []) (can_author_with ∷ [])
    ∷ after slot_duration (part client ∷ []) (duration ∷ [])
    ∷ after start_aura
        (part duration
          ∷ part client
          ∷ part select_chain
          ∷ part aura_block_import
          ∷ part proposer
          ∷ part network
          ∷ part inherent_data_providers
          ∷ flag force_authoring
          ∷ part keystore
          ∷ part can_author_with
          ∷ [])
        (aura ∷ [])
    ∷ before spawn_aura (part task_manager ∷ part aura ∷ []) []
    ∷ []
aura_part false force_authoring = []

-- From whether the role is an authority, and a network authority.
abbrev pub grandpa_settings : Bool → Bool → GrandpaConfig
grandpa_settings is_authority is_network_authority = record {
  gossip_duration_millis = 333;
  justification_period = 512;
  name = some node_name;
  observer_enabled = false;
  keystore = if is_authority then some keystore else none;
  is_authority = is_network_authority;
}

-- From whether GRANDPA is disabled.
abbrev pub grandpa_part : Bool → GrandpaConfig → List Part
grandpa_part true grandpa_config =
    after setup_disabled_grandpa (part client ∷ part inherent_data_providers ∷ part network ∷ []) []
    ∷ []
grandpa_part false grandpa_config =
    after run_grandpa_voter
      (grandpa grandpa_config
        ∷ part grandpa_link
        ∷ part network
        ∷ part inherent_data_providers
        ∷ some_part telemetry_connection_sinks
        ∷ default_value
        ∷ setting prometheus_registry
        ∷ default_value
        ∷ [])
      (grandpa_voter ∷ [])
    ∷ before spawn_grandpa_voter (part task_manager ∷ part grandpa_voter ∷ []) []
    ∷ []

-- `new_partial`
abbrev pub new_partial : List Part
new_partial =
    before inherent_data_providers_new [] (inherent_data_providers ∷ [])
    ∷ after new_full_parts (setting whole_config ∷ [])
        (client ∷ backend ∷ keystore ∷ task_manager ∷ [])
    ∷ before longest_chain_new (part backend ∷ []) (select_chain ∷ [])
    ∷ before pool_new_full
        (setting transaction_pool_config
          ∷ setting prometheus_registry
          ∷ part task_manager
          ∷ part client
          ∷ [])
        (transaction_pool ∷ [])
    ∷ after block_import (part client ∷ part client ∷ part select_chain ∷ [])
        (grandpa_block_import ∷ grandpa_link ∷ [])
    ∷ before aura_block_import_new (part grandpa_block_import ∷ part client ∷ [])
        (aura_block_import ∷ [])
    ∷ after slot_duration (part client ∷ []) (duration ∷ [])
    ∷ before can_author_with_native_version_new (part client ∷ []) (can_author_with ∷ [])
    ∷ after aura_import_queue
        (part duration
          ∷ part aura_block_import
          ∷ some_part grandpa_block_import
          ∷ nothing
          ∷ part client
          ∷ part inherent_data_providers
          ∷ part task_manager
          ∷ setting prometheus_registry
          ∷ part can_author_with
          ∷ [])
        (import_queue ∷ [])
    ∷ []

-- The middle of `new_full`, which is the same for all settings but for the off-chain workers.
abbrev pub full_network_part : List Part
full_network_part =
    before new_for_service (part backend ∷ part client ∷ []) (finality_proof_provider ∷ [])
    ∷ after build_network
        (setting whole_config
          ∷ part client
          ∷ part transaction_pool
          ∷ part task_manager
          ∷ part import_queue
          ∷ nothing
          ∷ nothing
          ∷ nothing
          ∷ some_part finality_proof_provider
          ∷ [])
        networking
    ∷ []

abbrev pub full_tasks_part : List Part
full_tasks_part =
    before telemetry_connection_sinks_default [] (telemetry_connection_sinks ∷ [])
    ∷ after spawn_tasks
        (part network
          ∷ part client
          ∷ part keystore
          ∷ part task_manager
          ∷ part transaction_pool
          ∷ part telemetry_connection_sinks
          ∷ rpc_extensions client transaction_pool
          ∷ nothing
          ∷ nothing
          ∷ part backend
          ∷ part network_status_sinks
          ∷ part system_rpc_tx
          ∷ setting whole_config
          ∷ [])
        []
    ∷ []

-- `new_full` from the settings that it reads, but for the start of the network, which is last.
abbrev pub full_before_start : Bool → Bool → Bool → Bool → Bool → List Part
full_before_start is_authority is_network_authority offchain_worker force_authoring
      disable_grandpa =
    new_partial
    ++ (full_network_part
        ++ (offchain_part offchain_worker
            ++ (full_tasks_part
                ++ (aura_part is_authority force_authoring
                    ++ grandpa_part disable_grandpa
                        (grandpa_settings is_authority is_network_authority)))))
