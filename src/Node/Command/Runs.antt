-- ===== src/Node/Command/Runs.antt =====
-- What the subcommands of node/src/command.rs touch.
use nft101_rust.Prelude.{Bool, true, false, Option, List, [], ◌∷◌, if◌then◌else◌}
use nft101_rust.Node.Cli.{
  Subcommand, check_block, export_blocks, export_state, import_blocks, revert, benchmark,
}
use nft101_rust.Node.Calls.{Action, create_runner, run_command}
use nft101_rust.Node.Running.{Part, Run}
use nft101_rust.Node.Service.{Configuration, after, new_partial}
use nft101_rust.Node.Command.{run_cli}

abbrev pub runs_command : Action → Bool
runs_command a = elim a.function [ run_command _ ↦ true | _ ↦ false ]

-- The subcommands that work on the blocks of the chain.
abbrev pub needs_client : Subcommand → Bool
needs_client check_block = true
needs_client export_blocks = true
needs_client export_state = true
needs_client import_blocks = true
needs_client revert = true
needs_client _ = false

-- The subcommands that a node without benchmarks has.
abbrev pub is_enabled : Bool → Subcommand → Bool
is_enabled benchmarks benchmark = benchmarks
is_enabled benchmarks _ = true

-- What comes before a subcommand is run.
abbrev pub preparation : Subcommand → List Part
preparation command = after create_runner [] [] ∷ (if needs_client command then new_partial else [])

module _ {Role E : Type 0} (is_authority is_network_authority is_light : Role → Bool)
    (fails : List Action → Action → Option E) (benchmarks : Bool) (not_enabled : E)
    (config : Configuration Role) where
  abbrev pub cli_run : Option Subcommand → Run E
  cli_run command =
      run_cli is_authority is_network_authority is_light fails benchmarks not_enabled config
        (record { subcommand = command })
