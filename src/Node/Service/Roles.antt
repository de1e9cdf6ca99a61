-- ===== src/Node/Service/Roles.antt =====
-- What the settings of a node allow a call of node/src/service.rs to be.
use nft101_rust.Prelude.{
  ◌≡◌, refl, inl, inr, Bool-cases, Bool, true, false, none, some, ◌++◌, All, All-append,
  if◌then◌else◌,
}
use nft101_rust.Node.Calls.{
  Action, Function, Argument, flag, grandpa, never_can_author, no_extensions, rpc_extensions,
  new_full_parts, new_light_parts, pool_new_full, pool_new_light, block_import, light_block_import,
  build_offchain_workers, proposer_factory_new, start_aura, spawn_aura, run_grandpa_voter,
  spawn_grandpa_voter, setup_disabled_grandpa, start_network, keystore, on_demand, some_part,
  finality_proof_request_builder,
}
use nft101_rust.Node.Running.{Part, action}
use nft101_rust.Node.Service.{
  Configuration, offchain_part, aura_part, grandpa_part, grandpa_settings, new_partial,
  light_before_start, full_network_part, full_tasks_part, light_network_part, new_full, new_light,
  run_node, starting,
}

abbrev pub starts_network : Action → Bool
starts_network a = elim a.function [ start_network ↦ true | _ ↦ false ]

abbrev pub makes_blocks : Action → Bool
makes_blocks a = elim a.function [ spawn_aura ↦ true | _ ↦ false ]

abbrev pub votes : Action → Bool
votes a = elim a.function [ spawn_grandpa_voter ↦ true | _ ↦ false ]

abbrev pub skips_votes : Action → Bool
skips_votes a = elim a.function [ setup_disabled_grandpa ↦ true | _ ↦ false ]

module _ {Role : Type 0} (is_authority is_network_authority is_light : Role → Bool)
    (config : Configuration Role) where
  -- The settings under which a function is called.
  abbrev pub IsPermitted : Function → Type 0
  IsPermitted new_full_parts = is_light config.role ≡ false
  IsPermitted pool_new_full = is_light config.role ≡ false
  IsPermitted block_import = is_light config.role ≡ false
  IsPermitted new_light_parts = is_light config.role ≡ true
  IsPermitted pool_new_light = is_light config.role ≡ true
  IsPermitted light_block_import = is_light config.role ≡ true
  IsPermitted proposer_factory_new =
      (is_light config.role ≡ false) × (is_authority config.role ≡ true)
  IsPermitted start_aura = (is_light config.role ≡ false) × (is_authority config.role ≡ true)
  IsPermitted spawn_aura = (is_light config.role ≡ false) × (is_authority config.role ≡ true)
  IsPermitted run_grandpa_voter = (is_light config.role ≡ false) × (config.disable_grandpa ≡ false)
  IsPermitted spawn_grandpa_voter =
      (is_light config.role ≡ false) × (config.disable_grandpa ≡ false)
  IsPermitted setup_disabled_grandpa =
      (is_light config.role ≡ false) × (config.disable_grandpa ≡ true)
  IsPermitted build_offchain_workers = config.offchain_worker_enabled ≡ true
  IsPermitted _ = Unit

  -- The settings under which an argument is given: the voter has the keys just of an authority, and
  -- only a light node hands over a builder of requests for proofs of finality, never authors and gives
  -- its tasks no RPC extensions.
  abbrev pub IsGiven : Argument → Type 0
  IsGiven (flag force) = force ≡ config.force_authoring
  IsGiven (grandpa g) =
      (g.keystore ≡ (if is_authority config.role then some keystore else none))
      × (g.is_authority ≡ is_network_authority config.role)
  IsGiven (some_part on_demand) = is_light config.role ≡ true
  IsGiven (some_part finality_proof_request_builder) = is_light config.role ≡ true
  IsGiven (rpc_extensions _ _) = is_light config.role ≡ false
  IsGiven never_can_author = is_light config.role ≡ true
  IsGiven no_extensions = is_light config.role ≡ true
  IsGiven _ = Unit

  abbrev pub IsAllowed : Action → Type 0
  IsAllowed a = IsPermitted a.function × All IsGiven a.arguments

  offchain-IsAllowed :
      (b : Bool)
      → config.offchain_worker_enabled ≡ b
      → All (λ p. IsAllowed (action p)) (offchain_part b)
  offchain-IsAllowed true e = search
  offchain-IsAllowed false e = tt

  aura-IsAllowed :
      (b : Bool)
      → is_light config.role ≡ false
      → is_authority config.role ≡ b
      → All (λ p. IsAllowed (action p)) (aura_part b config.force_authoring)
  aura-IsAllowed true l e = search
  aura-IsAllowed false l e = tt

  grandpa-IsAllowed :
      (b : Bool)
      → is_light config.role ≡ false
      → config.disable_grandpa ≡ b
      → All
          (λ p. IsAllowed (action p))
          (grandpa_part b
            (grandpa_settings (is_authority config.role) (is_network_authority config.role)))
  grandpa-IsAllowed true l e = search
  grandpa-IsAllowed false l e = search

  full-IsAllowed :
      is_light config.role ≡ false
      → All (λ p. IsAllowed (action p)) (new_full is_authority is_network_authority config)
  unfolding new_full
  full-IsAllowed e =
      let P = (λ (p : Part). IsAllowed (action p)) in
      let roles =
        aura_part (is_authority config.role) config.force_authoring
        ++ grandpa_part config.disable_grandpa
            (grandpa_settings (is_authority config.role) (is_network_authority config.role)) in
      let offchain = offchain_part config.offchain_worker_enabled in
      All-append P (new_partial ++ (full_network_part ++ (offchain ++ (full_tasks_part ++ roles))))
        starting
        (All-append P new_partial (full_network_part ++ (offchain ++ (full_tasks_part ++ roles)))
          (search)
          (All-append P full_network_part (offchain ++ (full_tasks_part ++ roles)) (search) (
            All-append P offchain (full_tasks_part ++ roles)
              (offchain-IsAllowed config.offchain_worker_enabled refl)
              (All-append P full_tasks_part roles (search) (
                All-append P (aura_part (is_authority config.role) config.force_authoring) _
                  (aura-IsAllowed (is_authority config.role) e refl)
                  (grandpa-IsAllowed config.disable_grandpa e refl))))))
        (search)

  light-IsAllowed :
      is_light config.role ≡ true
      → All (λ p. IsAllowed (action p)) (new_light is_authority is_network_authority config)
  unfolding new_light
  light-IsAllowed e =
      let P = (λ (p : Part). IsAllowed (action p)) in
      All-append P (light_before_start config.offchain_worker_enabled) starting
        (All-append P light_network_part _ (search) (
          All-append P (offchain_part config.offchain_worker_enabled) _
            (offchain-IsAllowed config.offchain_worker_enabled refl) (search)))
        (search)

  pub node-IsAllowed :
      All (λ p. IsAllowed (action p)) (run_node is_authority is_network_authority is_light config)
  unfolding run_node
  node-IsAllowed = elim (Bool-cases (is_light config.role)) [
    | inl y ↦ rw y (light-IsAllowed y)
    | inr n ↦ rw n (full-IsAllowed n)
  ]
