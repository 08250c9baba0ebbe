-- ===== src/Para/Cli.antt =====
-- challenge-3/parachain-node/src/cli.rs, with the `CliConfiguration` of the relay chain's command
-- line in command.rs, and the texts of `SubstrateCli` there.
pub mod Settings
pub mod About
pub mod RelayChain
use sub0_bangkok_challenges.Common.{
  ℕ, String, Bool, Option, none, some, List, [], ◌∷◌, ◌++◌, Result, ok, err, result_map, str_eq,
  if◌then◌else◌, Act, panic,
}
use mathlib.Core.Option
use sub0_bangkok_challenges.Node.Spec.{ChainSpec, Extensions, try_get}
use sub0_bangkok_challenges.Node.Task.{Configuration, FilePath}
use sub0_bangkok_challenges.Node.Cli.{CliError, BenchmarkCmd}

-- `Cmd` stands for the SDK's types of commands.
pub data Subcommand (Cmd : Type 0) : Type 0 where
  build_spec : Cmd → Subcommand Cmd
  check_block : Cmd → Subcommand Cmd
  export_blocks : Cmd → Subcommand Cmd
  export_state : Cmd → Subcommand Cmd
  import_blocks : Cmd → Subcommand Cmd
  revert : Cmd → Subcommand Cmd
  purge_chain : Cmd → Subcommand Cmd
  export_genesis_head : Cmd → Subcommand Cmd
  export_genesis_wasm : Cmd → Subcommand Cmd
  benchmark : BenchmarkCmd Cmd → Subcommand Cmd

pub record Cli (Cmd RunCmd : Type 0) : Type 0 where
  pub subcommand : Option (Subcommand Cmd)
  pub run : RunCmd
  pub no_hardware_benchmarks : Bool
  pub relay_chain_args : List String

pub record RelayChainCli (RunCmd : Type 0) : Type 0 where
  pub base : RunCmd
  pub chain_id : Option String
  pub base_path : Option FilePath

-- `Option::or_else` and `Option::unwrap_or_default`
abbrev pub or_else : {A : Type 0} → Option A → Option A → Option A
or_else none b = b
or_else (some a) b = some a

abbrev pub unwrap_or_default : Option String → String
unwrap_or_default none = ""
unwrap_or_default (some s) = s

module _ {RunCmd : Type 0} where
  -- `RelayChainCli::new`; `parse_from` is `clap::Parser::parse_from`.
  unfoldable pub new : (List String → RunCmd) → Configuration → List String → RelayChainCli RunCmd
  new parse_from para_config relay_chain_args =
      let extension = try_get para_config.chain_spec in
      record {
        base = parse_from relay_chain_args;
        chain_id = Option.map (λ (e : Extensions). e.relay_chain) extension;
        base_path = some (para_config.base_path ++ ("polkadot" ∷ []));
      }

  -- `CliConfiguration::base_path`; the argument is `self.shared_params().base_path()`.
  unfoldable pub base_path_of :
      (RunCmd → Result CliError (Option FilePath))
      → RelayChainCli RunCmd
      → Result CliError (Option FilePath)
  base_path_of base_path cli = result_map (λ p. or_else p cli.base_path) (base_path cli.base)

  -- `CliConfiguration::chain_id`; the first argument is `self.base.base.chain_id`.
  unfoldable pub chain_id_of :
      (RunCmd → Bool → Result CliError String)
      → RelayChainCli RunCmd
      → Bool
      → Result CliError String
  chain_id_of chain_id cli is_dev =
      result_map (λ id. if str_eq id "" then unwrap_or_default cli.chain_id else id)
        (chain_id cli.base is_dev)

-- `DefaultConfigurationValues for RelayChainCli`
abbrev pub p2p_listen_port : ℕ
p2p_listen_port = 30334

abbrev pub rpc_listen_port : ℕ
rpc_listen_port = 9945

abbrev pub prometheus_listen_port : ℕ
prometheus_listen_port = 9616

-- What `DefaultConfigurationValues` hands to the SDK.
pub record DefaultPorts : Type 0 where
  pub p2p : ℕ
  pub rpc : ℕ
  pub prometheus : ℕ

abbrev pub default_ports : DefaultPorts
default_ports = record {
  p2p = p2p_listen_port;
  rpc = rpc_listen_port;
  prometheus = prometheus_listen_port;
}
