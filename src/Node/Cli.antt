-- ===== src/Node/Cli.antt =====
-- node/src/cli.rs: the command line of the node. The arguments of a command, which the crates of Substrate parse, are left
-- out.
use nft101_rust.Prelude.{Option}

-- `Subcommand`
pub data Subcommand : Type 0 where
  build_spec check_block export_blocks export_state import_blocks purge_chain revert benchmark :
      Subcommand

-- `Cli`; without a subcommand its other field says how the node is run.
pub record Cli : Type 0 where
  pub subcommand : Option Subcommand
