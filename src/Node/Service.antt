-- ===== src/Node/Service.antt =====
-- node/src/service.rs: how a node is put together, and where it stops on an error. The components come
-- from Substrate; a call of it is an action, which may fail.
mod Parts
mod Full
mod Light
pub mod Roles
pub mod Starting
pub use Parts.*
pub use Full.*
pub use Light.*
use nft101_rust.Prelude.{Bool, List, ◌++◌, if◌then◌else◌}
use nft101_rust.Node.Running.{Part}

-- What of the configuration is read here.
pub record Configuration (Role : Type 0) : Type 0 where
  pub role : Role
  pub offchain_worker_enabled : Bool
  pub force_authoring : Bool
  pub disable_grandpa : Bool

module _ {Role : Type 0} (is_authority is_network_authority : Role → Bool) where
  unfoldable pub new_full : Configuration Role → List Part
  new_full config =
      full_before_start (is_authority config.role) (is_network_authority config.role)
        config.offchain_worker_enabled config.force_authoring config.disable_grandpa
      ++ starting

  unfoldable pub new_light : Configuration Role → List Part
  new_light config = light_before_start config.offchain_worker_enabled ++ starting

  -- The choice of `run` in node/src/command.rs: `is_light` is whether the role is `Role::Light`.
  unfoldable pub run_node : (Role → Bool) → Configuration Role → List Part
  run_node is_light config = if is_light config.role then new_light config else new_full config
