-- ===== src/Node/Service/Light.antt =====
-- `new_light` of node/src/service.rs.
use nft101_rust.Prelude.{Bool, List, [], ◌∷◌, ◌++◌}
use nft101_rust.Node.Calls.{
  inherent_data_providers, client, backend, keystore, task_manager, on_demand, transaction_pool,
  grandpa_block_import, finality_proof_request_builder, duration, import_queue,
  finality_proof_provider, network, network_status_sinks, system_rpc_tx, whole_config,
  transaction_pool_config, prometheus_registry, part, some_part, nothing, setting, default_value,
  never_can_author, no_extensions, inherent_data_providers_new, new_light_parts, pool_new_light,
  light_block_import, create_finality_proof_request_builder, slot_duration, aura_import_queue,
  new_for_service, build_network, spawn_tasks,
}
use nft101_rust.Node.Running.{Part}
use nft101_rust.Node.Service.Parts.{before, after, networking, offchain_part}

-- The first calls of `new_light`.
abbrev pub light_network_part : List Part
light_network_part =
    after new_light_parts (setting whole_config ∷ [])
      (client ∷ backend ∷ keystore ∷ task_manager ∷ on_demand ∷ [])
    ∷ before pool_new_light
        (setting transaction_pool_config
          ∷ setting prometheus_registry
          ∷ part task_manager
          ∷ part client
          ∷ part on_demand
          ∷ [])
        (transaction_pool ∷ [])
    ∷ after light_block_import (part client ∷ part backend ∷ part client ∷ part on_demand ∷ [])
        (grandpa_block_import ∷ [])
    ∷ before create_finality_proof_request_builder (part grandpa_block_import ∷ [])
        (finality_proof_request_builder ∷ [])
    ∷ after slot_duration (part client ∷ []) (duration ∷ [])
    ∷ before inherent_data_providers_new [] (inherent_data_providers ∷ [])
    ∷ after aura_import_queue
        (part duration
          ∷ part grandpa_block_import
          ∷ nothing
          ∷ some_part grandpa_block_import
          ∷ part client
          ∷ part inherent_data_providers
          ∷ part task_manager
          ∷ setting prometheus_registry
          ∷ never_can_author
          ∷ [])
        (import_queue ∷ [])
    ∷ before new_for_service (part backend ∷ part client ∷ []) (finality_proof_provider ∷ [])
    ∷ after build_network
        (setting whole_config
          ∷ part client
          ∷ part transaction_pool
          ∷ part task_manager
          ∷ part import_queue
          ∷ some_part on_demand
          ∷ nothing
          ∷ some_part finality_proof_request_builder
          ∷ some_part finality_proof_provider
          ∷ [])
        networking
    ∷ []

abbrev pub light_tasks_part : List Part
light_tasks_part =
    after spawn_tasks
      (some_part backend
        ∷ part transaction_pool
        ∷ part task_manager
        ∷ some_part on_demand
        ∷ no_extensions
        ∷ default_value
        ∷ setting whole_config
        ∷ part client
        ∷ part keystore
        ∷ part backend
        ∷ part network
        ∷ part network_status_sinks
        ∷ part system_rpc_tx
        ∷ [])
      []
    ∷ []

-- `new_light`, but for the start of the network.
abbrev pub light_before_start : Bool → List Part
light_before_start offchain_worker =
    light_network_part ++ (offchain_part offchain_worker ++ light_tasks_part)
