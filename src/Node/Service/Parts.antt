-- ===== src/Node/Service/Parts.antt =====
-- What a full node and a light node of node/src/service.rs have in common.
use nft101_rust.Prelude.{Bool, true, false, List, [], ◌∷◌}
use nft101_rust.Node.Calls.{
  client, backend, task_manager, network, network_status_sinks, system_rpc_tx, network_starter,
  whole_config, part, setting, build_offchain_workers, start_network, Function, Argument, Component,
}
use nft101_rust.Node.Running.{Part, fallible, infallible}

-- A call with its arguments, and what its result is bound to; `after` is followed by `?`.
abbrev pub before : Function → List Argument → List Component → Part
before f given made = infallible (record { function = f; arguments = given; makes = made })

abbrev pub after : Function → List Argument → List Component → Part
after f given made = fallible (record { function = f; arguments = given; makes = made })

-- What `build_network` makes.
abbrev pub networking : List Component
networking = network ∷ network_status_sinks ∷ system_rpc_tx ∷ network_starter ∷ []

abbrev pub offchain_part : Bool → List Part
offchain_part true =
    before build_offchain_workers
      (setting whole_config ∷ part backend ∷ part task_manager ∷ part client ∷ part network ∷ []) []
    ∷ []
offchain_part false = []

abbrev pub starting : List Part
starting = before start_network (part network_starter ∷ []) [] ∷ []
