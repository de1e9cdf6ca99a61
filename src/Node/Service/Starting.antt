-- ===== src/Node/Service/Starting.antt =====
-- The order in which node/src/service.rs starts the parts of a node.
use nft101_rust.Prelude.{
  ◌≡◌, refl, Bool, true, false, not, Bool-cases, inl, inr, Option, none, List, [], ◌∷◌, ◌++◌, map,
  All,
}
use nft101_rust.Node.Calls.{Action, start_network, network_starter, part}
use nft101_rust.Node.Running.{action, did, did-none, is_none, run, run-All, run-did_last, run_all}
use nft101_rust.Node.Service.{
  Configuration, full_before_start, light_before_start, new_full, new_light, run_node, starting,
}
use nft101_rust.Node.Service.Roles.{
  IsAllowed, node-IsAllowed, starts_network, makes_blocks, votes, skips_votes,
}

-- Neither kind of node starts the network before the end.
full_starts :
    (authority network_authority offchain force disabled : Bool)
    → did starts_network
        (map action (full_before_start authority network_authority offchain force disabled))
      ≡ false
full_starts true n true f true = refl
full_starts true n true f false = refl
full_starts true n false f true = refl
full_starts true n false f false = refl
full_starts false n true f true = refl
full_starts false n true f false = refl
full_starts false n false f true = refl
full_starts false n false f false = refl

light_starts :
    (offchain : Bool) → did starts_network (map action (light_before_start offchain)) ≡ false
light_starts true = refl
light_starts false = refl

-- The calls of a full node, from the settings alone.
roles_lem :
    (authority network_authority offchain force disabled : Bool)
    → let calls =
        map action
          (full_before_start authority network_authority offchain force disabled ++ starting) in
      (did makes_blocks calls ≡ authority)
      × (did votes calls ≡ not disabled)
      × (did skips_votes calls ≡ disabled)
roles_lem true n true f true = (refl, refl, refl)
roles_lem true n true f false = (refl, refl, refl)
roles_lem true n false f true = (refl, refl, refl)
roles_lem true n false f false = (refl, refl, refl)
roles_lem false n true f true = (refl, refl, refl)
roles_lem false n true f false = (refl, refl, refl)
roles_lem false n false f true = (refl, refl, refl)
roles_lem false n false f false = (refl, refl, refl)

module _ {Role E : Type 0} (is_authority is_network_authority : Role → Bool)
    (fails : List Action → Action → Option E) where
  -- The network is started just in the runs that meet no error, for a light and for a full node: a
  -- node that could not be put together never joins the network, and one that could does.
  pub starts_when_complete :
      (is_light : Role → Bool) (config : Configuration Role)
      → did starts_network
          (run fails [] (run_node is_authority is_network_authority is_light config)).trace
        ≡ is_none (run fails [] (run_node is_authority is_network_authority is_light config)).error
  unfolding run_node new_full new_light
  starts_when_complete is_light config =
      let full =
        full_before_start (is_authority config.role) (is_network_authority config.role)
          config.offchain_worker_enabled config.force_authoring config.disable_grandpa in
      let light = light_before_start config.offchain_worker_enabled in
      let end : Action = record {
        function = start_network;
        arguments = part network_starter ∷ [];
        makes = [];
      } in
      elim (Bool-cases (is_light config.role)) [
        | inl y ↦ rw y (
            run-did_last fails starts_network end [] light refl refl
              (did-none starts_network light (light_starts config.offchain_worker_enabled)))
        | inr n ↦ rw n (
            run-did_last fails starts_network end [] full refl refl (
              did-none starts_network full (
                full_starts (is_authority config.role) (is_network_authority config.role)
                  config.offchain_worker_enabled config.force_authoring config.disable_grandpa)))
      ]

  -- Whichever calls fail, a node makes no call that its settings do not allow: a light node never makes
  -- blocks or votes, only it hands over a builder of requests for proofs of finality, and its tasks get
  -- no RPC extensions; a full node makes blocks only as an authority and forced only if so configured,
  -- votes only with GRANDPA enabled, and gives the voter its keys just as an authority; and the
  -- off-chain workers run only where they are enabled.
  pub node_calls-IsAllowed :
      (is_light : Role → Bool) (config : Configuration Role)
      → All
          (IsAllowed is_authority is_network_authority is_light config)
          (run fails [] (run_node is_authority is_network_authority is_light config)).trace
  node_calls-IsAllowed is_light config =
      run-All fails (IsAllowed is_authority is_network_authority is_light config) []
        (run_node is_authority is_network_authority is_light config) tt
        (node-IsAllowed is_authority is_network_authority is_light config)

  -- A full node that was put together without an error makes blocks just if it is an authority, and
  -- votes on finality just if GRANDPA is enabled; else it was set up as disabled.
  pub full_roles :
      (config : Configuration Role)
      → (run fails [] (new_full is_authority is_network_authority config)).error ≡ none
      → (did makes_blocks (run fails [] (new_full is_authority is_network_authority config)).trace
          ≡ is_authority config.role)
        × (did votes (run fails [] (new_full is_authority is_network_authority config)).trace
            ≡ not config.disable_grandpa)
        × (did skips_votes (run fails [] (new_full is_authority is_network_authority config)).trace
            ≡ config.disable_grandpa)
  unfolding new_full
  full_roles config e =
      rw (run_all fails [] (new_full is_authority is_network_authority config) e) (
        roles_lem (is_authority config.role) (is_network_authority config.role)
          config.offchain_worker_enabled config.force_authoring config.disable_grandpa)
