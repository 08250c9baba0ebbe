-- ===== src/Solo/Command.antt =====
-- challenge-3/solo-node/src/command.rs. A runner passes the configuration that it made of the
-- command line to its closure, and returns what the closure returns; a command's future is its
-- result.
pub mod Runs
pub mod Success
pub mod Specs
use sub0_bangkok_challenges.Common.{
  ℕ, String, Bool, true, false, Option, none, some, List, Outcome, Result, Act, ◌>>=◌, ◌>>◌, pure,
  emit, lift, settle, panic, embed, str_eq, if◌then◌else◌, ◌||◌,
}
use sub0_bangkok_challenges.Node.Spec.{ChainSpec}
use sub0_bangkok_challenges.Node.Crypto.{Crypto, Build}
use sub0_bangkok_challenges.Node.Task.{
  Configuration, NetworkConfiguration, NetworkBackendType, FilePath,
}
use sub0_bangkok_challenges.Node.Cli.{CliError, service, BenchmarkCmd}
use sub0_bangkok_challenges.Solo.ChainSpec.{development_config, local_testnet_config}
use sub0_bangkok_challenges.Solo.Service.{Types, Event, Sdk, Partial, new_partial, new_full}
use sub0_bangkok_challenges.Solo.Cli.{Cli, Subcommand}
use sub0_bangkok_challenges.Solo.Cli

-- `SubstrateCli::load_spec`, over `ChainSpec::from_json_file`
unfoldable pub load_spec :
    Crypto → Option String → (String → Result String ChainSpec) → String → Build ChainSpec
load_spec C wasm_binary from_json_file id =
    if str_eq id "dev"
    then development_config C wasm_binary
    else if str_eq id "" || str_eq id "local"
    then local_testnet_config C wasm_binary
    else lift (from_json_file id)

module _ (T : Types) (Cmd : Type 0) where
  -- A call of a command's `run`, with what it is given.
  pub data Call : Type 0 where
    key : Cmd → Call
    build_spec : Cmd → ChainSpec → NetworkConfiguration → Call
    check_block : Cmd → T.Client → T.ImportQueue → Call
    export_blocks : Cmd → T.Client → Option FilePath → Call
    export_state : Cmd → T.Client → ChainSpec → Call
    import_blocks : Cmd → T.Client → T.ImportQueue → Call
    purge_chain : Cmd → Option FilePath → Call
    revert :
        Cmd
        → T.Client
        → T.Backend
        → (aux_revert : Option (T.Client → T.Backend → ℕ → Result String (Unit {0}))) → Call
    chain_info : Cmd → Configuration → Call

  pub data Action : Type 0 where
    called : Call → Action
    node : Event T → Action

-- The command line's side of the SDK.
pub record Commands (T : Types) (Cmd RunCmd : Type 0) : Type 0 where
  -- `create_runner` loads the chain specification, so it panics where `load_spec` does
  pub create_runner : Cmd → Outcome CliError Configuration
  pub create_node_runner : RunCmd → Outcome CliError Configuration
  pub perform : Call T Cmd → Result CliError (Unit {0})
  pub grandpa_revert : T.Client → ℕ → Result String (Unit {0})

-- `new_full` is generic in the network backend: `S` has its SDK for each.
module _ {T : Types} {Cmd RunCmd : Type 0} (K : Commands T Cmd RunCmd)
    (S : NetworkBackendType → Sdk T) where
  abbrev pub RunCli : Type 0 → Type 0
  RunCli A = Act CliError (Action T Cmd) A

  unfoldable pub call : Call T Cmd → RunCli (Unit {0})
  call c = do emit (called c); lift (K.perform c)

  -- `service::new_partial(&config)?`
  unfoldable pub parts : Configuration → RunCli (Partial T)
  parts config = embed service node (new_partial (S config.network.network_backend) config)

  -- `sc_consensus_grandpa::revert(client, blocks)?; Ok(())`
  unfoldable pub aux_revert : T.Client → T.Backend → ℕ → Result String (Unit {0})
  aux_revert client _ blocks = K.grandpa_revert client blocks

  unfoldable pub run_subcommand : Subcommand Cmd → RunCli (Unit {0})
  run_subcommand (Cli.key cmd) = call (key cmd)
  run_subcommand (Cli.build_spec cmd) = do
    config ← settle (K.create_runner cmd)
    call (build_spec cmd config.chain_spec config.network)
  run_subcommand (Cli.check_block cmd) = do
    config ← settle (K.create_runner cmd)
    p ← parts config
    call (check_block cmd p.client p.import_queue)
  run_subcommand (Cli.export_blocks cmd) = do
    config ← settle (K.create_runner cmd)
    p ← parts config
    call (export_blocks cmd p.client config.database)
  run_subcommand (Cli.export_state cmd) = do
    config ← settle (K.create_runner cmd)
    p ← parts config
    call (export_state cmd p.client config.chain_spec)
  run_subcommand (Cli.import_blocks cmd) = do
    config ← settle (K.create_runner cmd)
    p ← parts config
    call (import_blocks cmd p.client p.import_queue)
  run_subcommand (Cli.purge_chain cmd) = do
    config ← settle (K.create_runner cmd)
    call (purge_chain cmd config.database)
  run_subcommand (Cli.revert cmd) = do
    config ← settle (K.create_runner cmd)
    p ← parts config
    call (revert cmd p.client p.backend (some aux_revert))
  run_subcommand (Cli.benchmark _) =
      panic "not implemented: For the simplicity of the tutorial, we will remove this command."
  run_subcommand (Cli.chain_info cmd) = do
    config ← settle (K.create_runner cmd)
    call (chain_info cmd config)

  -- The closure of `run_node_until_exit`.
  unfoldable pub run_node : RunCmd → RunCli (Unit {0})
  run_node cmd = do
    config ← settle (K.create_node_runner cmd)
    embed service node (new_full (S config.network.network_backend) config)

  -- `match &cli.subcommand`
  unfoldable pub dispatch : RunCmd → Option (Subcommand Cmd) → RunCli (Unit {0})
  dispatch cmd none = run_node cmd
  dispatch cmd (some subcommand) = run_subcommand subcommand

  unfoldable pub run : Cli Cmd RunCmd → RunCli (Unit {0})
  run cli = dispatch cli.run cli.subcommand
