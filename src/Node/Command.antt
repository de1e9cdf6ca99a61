-- ===== src/Node/Command.antt =====
-- node/src/command.rs: the chain that an identifier names, and what a command line does.
pub mod Runs
use Prim.Native.String.{String}
use text.Mathlib.Text.{◌==◌}
use nft101_rust.Prelude.{
  ℕ, ◌≡◌, ◌⊎◌, inl, inr, Option, none, some, List, [], ◌∷◌, ◌++◌, Bool, if◌then◌else◌, arith,
}
use nft101_rust.Node.Cli.{
  Cli, Subcommand, build_spec, check_block, export_blocks, export_state, import_blocks, purge_chain,
  revert, benchmark,
}
use nft101_rust.Node.Calls.{
  Function, Argument, Action, part, setting, client, backend, import_queue, task_manager,
  whole_config, chain_spec, network_config, database, create_runner, run_until_exit, run_command,
}
use nft101_rust.Node.Running.{Part, Run, fallible, run}
use nft101_rust.Node.Service.{Configuration, after, new_partial, run_node}
use nft101_rust.Node.ChainSpec.{
  Result, ok, Keys, Spec, GenesisConfig, development_config, local_testnet_config,
}
use nft101_rust.Node.ChainSpec.Genesis.{IsUsable, chains-IsUsable}

module _ {Public Account AuraId GrandpaId : Type 0} (keys : Keys Public Account AuraId GrandpaId)
    (from_json_file : String → Result (Spec Account AuraId GrandpaId)) where
  -- From `WASM_BINARY` and the reader of chain specifications.
  unfoldable pub load_spec : Option (List ℕ) → String → Result (Spec Account AuraId GrandpaId)
  load_spec wasm_binary name =
      if name == "dev"
      then development_config keys wasm_binary
      else if name == ""
      then local_testnet_config keys wasm_binary
      else if name == "local"
      then local_testnet_config keys wasm_binary
      else from_json_file name

  -- The chains that are loaded by `dev`, by `local` and by no name have a usable genesis, whatever the
  -- keys are that the seeds give: it has the code that the build made, the endowed accounts live
  -- and can pay the smallest price, the issuance is a `u128`, the administrator is endowed, and Aura
  -- and Grandpa have equally many authorities, one at least, each with weight 1 for Grandpa.
  pub load_spec-IsUsable :
      (code : List ℕ) (name : String) (spec : Spec Account AuraId GrandpaId)
      (g : GenesisConfig Account AuraId GrandpaId)
      → (name ≡ "dev") ⊎ (name ≡ "") ⊎ (name ≡ "local")
      → load_spec (some code) name ≡ ok spec
      → spec.genesis ≡ some g
      → IsUsable code g
  unfolding load_spec
  load_spec-IsUsable code name spec g (inl e) l q =
      chains-IsUsable keys code spec g (inl (rw e at l)) q
  load_spec-IsUsable code name spec g (inr (inl e)) l q =
      chains-IsUsable keys code spec g (inr (rw e at l)) q
  load_spec-IsUsable code name spec g (inr (inr e)) l q =
      chains-IsUsable keys code spec g (inr (rw e at l)) q

  -- In a build without the Wasm binary only a file can be loaded, and it is loaded as it is read.
  pub load_spec-from_json_file :
      (name : String) (spec : Spec Account AuraId GrandpaId)
      → load_spec none name ≡ ok spec
      → from_json_file name ≡ ok spec
  unfolding load_spec development_config local_testnet_config
  load_spec-from_json_file name spec e = ground (arith)

module _ {Role E : Type 0} (is_authority is_network_authority is_light : Role → Bool)
    (fails : List Action → Action → Option E) (benchmarks : Bool) (not_enabled : E)
    (config : Configuration Role) where
  -- `runner.sync_run(|config| cmd.run(..))`
  abbrev pub sync_run : Subcommand → List Argument → Run E
  sync_run command given =
      run fails [] (after create_runner [] [] ∷ after (run_command command) given [] ∷ [])

  -- `runner.async_run(|config| ..)` with the parts of a full node: the command is run until it ends, and
  -- the task manager is kept until then.
  abbrev pub async_run : Subcommand → List Argument → Run E
  async_run command given = run fails [] (
      (after create_runner [] [] ∷ new_partial)
      ++ after (run_command command) (given ++ part task_manager ∷ []) [] ∷ [])

  -- The branches of `run`, where `benchmarks` is whether the node was built with the feature
  -- `runtime-benchmarks`, and `not_enabled` the error without it.
  abbrev pub run_subcommand : Option Subcommand → Run E
  run_subcommand (some build_spec) =
      sync_run build_spec (setting chain_spec ∷ setting network_config ∷ [])
  run_subcommand (some check_block) = async_run check_block (part client ∷ part import_queue ∷ [])
  run_subcommand (some export_blocks) =
      async_run export_blocks (part client ∷ setting database ∷ [])
  run_subcommand (some export_state) =
      async_run export_state (part client ∷ setting chain_spec ∷ [])
  run_subcommand (some import_blocks) =
      async_run import_blocks (part client ∷ part import_queue ∷ [])
  run_subcommand (some purge_chain) = sync_run purge_chain (setting database ∷ [])
  run_subcommand (some revert) = async_run revert (part client ∷ part backend ∷ [])
  run_subcommand (some benchmark) =
      if benchmarks
      then sync_run benchmark (setting whole_config ∷ [])
      else record { trace = []; error = some not_enabled }
  run_subcommand none = run fails [] (
      (after create_runner [] [] ∷ run_node is_authority is_network_authority is_light config)
      ++ after run_until_exit (part task_manager ∷ []) [] ∷ [])

  unfoldable pub run_cli : Cli → Run E
  run_cli cli = run_subcommand cli.subcommand
