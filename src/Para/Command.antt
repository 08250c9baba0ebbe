-- ===== src/Para/Command.antt =====
-- challenge-3/parachain-node/src/command.rs. A runner passes the configuration that it made of the
-- command line to its closure, and returns what the closure returns; a command's future is its
-- result.
mod Calls
pub mod Runs
pub mod Specs
pub mod Node
pub mod Bench
pub mod Outcomes
pub mod BuiltIn
pub mod Refusals
pub mod Success
pub mod Calm
unfoldable pub use Calls.*
use mathlib.Core.Option
use sub0_bangkok_challenges.Common.{
  ℕ, String, ◌<>◌, Bool, true, false, not, Option, none, some, List, [], ◌∷◌, Result, Act, ◌>>=◌,
  ◌>>◌, pure, emit, fail, lift, settle, embed, map_err, str_eq, if◌then◌else◌, ◌||◌,
}
use sub0_bangkok_challenges.Node.Spec.{ChainSpec, Extensions, try_get}
use sub0_bangkok_challenges.Node.Crypto.{Crypto, Build}
use sub0_bangkok_challenges.Node.Task.{Configuration, NetworkConfiguration, FilePath, is_authority}
use sub0_bangkok_challenges.Node.Cli.{
  CliError, service, input, BenchmarkCmd, pallet, block, storage, overhead, machine, extrinsic,
}
use sub0_bangkok_challenges.Para.ChainSpec.{Crates, development_config, local_testnet_config}
use sub0_bangkok_challenges.Para.Service.{
  Types, Event, Sdk, Partial, new_partial, start_parachain_node,
}
use sub0_bangkok_challenges.Para.Cli.{
  Cli, Subcommand, RelayChainCli, new, unwrap_or_default, default_ports,
}
use sub0_bangkok_challenges.Para.Cli.Settings.{cli_configuration}
use sub0_bangkok_challenges.Para.Cli
use sub0_bangkok_challenges.Para.Command.Calls.{
  CliTypes, Call, build_spec, check_block, export_blocks, export_state, import_blocks, revert,
  purge_chain, export_genesis_head, export_genesis_wasm, benchmark_pallet, benchmark_block,
  benchmark_storage, benchmark_machine, Action, called, created_dir, gathered, info_is_collating,
  node, Commands,
}

-- `load_spec`, over `ChainSpec::from_json_file`
unfoldable pub load_spec :
    Crypto → Crates → Option String → (String → Result String ChainSpec) → String → Build ChainSpec
load_spec C R wasm_binary from_json_file id =
    if str_eq id "dev"
    then development_config C R wasm_binary
    else if str_eq id "template-rococo"
    then local_testnet_config C R wasm_binary
    else if str_eq id "" || str_eq id "local"
    then local_testnet_config C R wasm_binary
    else lift (from_json_file id)

-- `benchmarks` is the cargo feature `runtime-benchmarks`.
module _ {T : Types} {L : CliTypes} (K : Commands T L) (S : Sdk T) (benchmarks : Bool) where
  open L use {Cmd}

  abbrev pub RunCli : Type 0 → Type 0
  RunCli A = Act CliError (Action T L) A

  unfoldable pub call : Call T L → RunCli (Unit {0})
  call c = do emit (called c); lift (K.perform c)

  -- `new_partial(&config)?`
  unfoldable pub parts : Configuration → RunCli (Partial T)
  parts config = embed service node (new_partial S config)

  -- `SubstrateCli::create_configuration` of the relay chain's own part of the command line.
  unfoldable pub create_relay_chain : List String → Configuration → Result CliError Configuration
  create_relay_chain relay_chain_args config =
      K.create_configuration (cli_configuration K.shared_base_path K.relay_settings) default_ports
        (new K.parse_from config (K.executable_name ∷ relay_chain_args))

  -- The relay chain's configuration.
  unfoldable pub relay_chain_config : List String → Configuration → RunCli Configuration
  relay_chain_config relay_chain_args config = lift (
      map_err (λ e. input ("Relay chain argument error: " <> K.display e))
        (create_relay_chain relay_chain_args config))

  unfoldable pub run_storage_benchmark : Cmd → Configuration → RunCli (Unit {0})
  run_storage_benchmark cmd config = do
    p ← parts config
    let db = K.expose_db p.backend
    let storage = K.expose_storage p.backend
    call (benchmark_storage cmd config p.client db storage)

  unfoldable pub run_benchmark : BenchmarkCmd Cmd → RunCli (Unit {0})
  run_benchmark (pallet cmd) = do
    config ← settle (K.create_runner cmd)
    if benchmarks
        then call (benchmark_pallet cmd config.chain_spec)
        else fail (
            input
              "Benchmarking wasn't enabled when building the node. You can enable it with `--features runtime-benchmarks`.")
  run_benchmark (block cmd) = do
    config ← settle (K.create_runner cmd)
    p ← parts config
    call (benchmark_block cmd p.client)
  run_benchmark (storage cmd) = do
    config ← settle (K.create_runner cmd)
    if benchmarks
        then run_storage_benchmark cmd config
        else fail (input "Compile with --features=runtime-benchmarks to enable storage benchmarks.")
  run_benchmark (machine cmd) = do
    config ← settle (K.create_runner cmd)
    call (benchmark_machine cmd config)
  run_benchmark (overhead cmd) = do
    config ← settle (K.create_runner cmd)
    fail (input "Benchmarking sub-command unsupported")
  run_benchmark (extrinsic cmd) = do
    config ← settle (K.create_runner cmd)
    fail (input "Benchmarking sub-command unsupported")

  unfoldable pub run_subcommand : List String → Subcommand Cmd → RunCli (Unit {0})
  run_subcommand relay_chain_args (Cli.build_spec cmd) = do
    config ← settle (K.create_runner cmd)
    call (build_spec cmd config.chain_spec config.network)
  run_subcommand relay_chain_args (Cli.check_block cmd) = do
    config ← settle (K.create_runner cmd)
    p ← parts config
    call (check_block cmd p.client p.import_queue)
  run_subcommand relay_chain_args (Cli.export_blocks cmd) = do
    config ← settle (K.create_runner cmd)
    p ← parts config
    call (export_blocks cmd p.client config.database)
  run_subcommand relay_chain_args (Cli.export_state cmd) = do
    config ← settle (K.create_runner cmd)
    p ← parts config
    call (export_state cmd p.client config.chain_spec)
  run_subcommand relay_chain_args (Cli.import_blocks cmd) = do
    config ← settle (K.create_runner cmd)
    p ← parts config
    call (import_blocks cmd p.client p.import_queue)
  run_subcommand relay_chain_args (Cli.revert cmd) = do
    config ← settle (K.create_runner cmd)
    p ← parts config
    call (revert cmd p.client p.backend)
  run_subcommand relay_chain_args (Cli.purge_chain cmd) = do
    config ← settle (K.create_runner cmd)
    polkadot_config ← relay_chain_config relay_chain_args config
    call (purge_chain cmd config polkadot_config)
  run_subcommand relay_chain_args (Cli.export_genesis_head cmd) = do
    config ← settle (K.create_runner cmd)
    p ← parts config
    call (export_genesis_head cmd p.client)
  run_subcommand relay_chain_args (Cli.export_genesis_wasm cmd) = do
    _config ← settle (K.create_runner cmd)
    spec ← embed input (λ (e : ⊥). absurd e) (K.load_chain (unwrap_or_default (K.chain cmd)))
    call (export_genesis_wasm cmd spec)
  run_subcommand relay_chain_args (Cli.benchmark cmd) = run_benchmark cmd

  -- The argument of `then_some`, which is computed whether the flag is set or not.
  unfoldable pub measure : Option FilePath → RunCli (Option T.HwBench)
  measure none = pure none
  measure (some database_path) = do
    emit (created_dir database_path)
    emit (gathered database_path)
    pure (some (K.gather_hwbench database_path))

  -- `.ok_or(..)?`
  unfoldable pub ok_or : {A : Type 0} → Option A → String → RunCli A
  ok_or none message = fail (input message)
  ok_or (some a) message = pure a

  -- The closure of `run_node_until_exit`.
  unfoldable pub run_node_with : Cli Cmd L.RunCmd → Configuration → RunCli (Unit {0})
  run_node_with cli config = do
    measured ← measure config.database
    let hwbench = if not cli.no_hardware_benchmarks then measured else none
    para_id ←
        ok_or (Option.map (λ (e : Extensions). e.para_id) (try_get config.chain_spec))
          "Could not find parachain ID in chain-spec."
    polkadot_config ← relay_chain_config cli.relay_chain_args config
    emit (info_is_collating (if is_authority config.role then "yes" else "no"))
    _client ←
        embed service node (
          start_parachain_node S config polkadot_config (K.collator_options cli.run) para_id
            hwbench)
    pure tt

  unfoldable pub run_node : Cli Cmd L.RunCmd → RunCli (Unit {0})
  run_node cli = settle (K.create_runner (K.normalize cli.run)) >>= run_node_with cli

  -- `match &cli.subcommand`
  unfoldable pub dispatch : Cli Cmd L.RunCmd → Option (Subcommand Cmd) → RunCli (Unit {0})
  dispatch cli none = run_node cli
  dispatch cli (some subcommand) = run_subcommand cli.relay_chain_args subcommand

  unfoldable pub run : Cli Cmd L.RunCmd → RunCli (Unit {0})
  run cli = dispatch cli cli.subcommand
