-- ===== src/Para/Cli/Settings.antt =====
-- The settings that the relay chain's node is configured by: `CliConfiguration` of `RelayChainCli`
-- in challenge-3/parachain-node/src/command.rs, over that of the relay chain's own arguments,
-- `polkadot_cli::RunCmd`.
use sub0_bangkok_challenges.Common.{ℕ, String, Bool, Option, List, Result, Outcome, panicked}
use sub0_bangkok_challenges.Node.Spec.{ChainSpec}
use sub0_bangkok_challenges.Node.Task.{FilePath}
use sub0_bangkok_challenges.Node.Cli.{CliError}
use sub0_bangkok_challenges.Para.Cli.{RelayChainCli, base_path_of, chain_id_of}

-- The SDK's types of settings.
pub record SettingTypes : Type 1 where
  pub SharedParams : Type 0
  pub ImportParams : Type 0
  pub NetworkParams : Type 0
  pub KeystoreParams : Type 0
  pub SocketAddr : Type 0
  pub PrometheusConfig : Type 0
  pub Role : Type 0
  pub TransactionPoolOptions : Type 0
  pub RpcMethods : Type 0
  pub TelemetryEndpoints : Type 0

abbrev pub Setting : Type 0 → Type 0 → Type 0
Setting Self A = Self → Result CliError A

-- The functions of the trait that the code implements.
pub record CliConfiguration (V : SettingTypes) (Self : Type 0) : Type 0 where
  pub shared_params : Self → V.SharedParams
  pub import_params : Self → Option V.ImportParams
  pub network_params : Self → Option V.NetworkParams
  pub keystore_params : Self → Option V.KeystoreParams
  pub base_path : Setting Self (Option FilePath)
  pub rpc_addr : ℕ → Setting Self (Option V.SocketAddr)
  pub prometheus_config : ℕ → ChainSpec → Setting Self (Option V.PrometheusConfig)
  pub init : Self → Outcome CliError (Unit {0})
  pub chain_id : Bool → Setting Self String
  pub role : Bool → Setting Self V.Role
  pub transaction_pool : Bool → Setting Self V.TransactionPoolOptions
  pub trie_cache_maximum_size : Setting Self (Option ℕ)
  pub rpc_methods : Setting Self V.RpcMethods
  pub rpc_max_connections : Setting Self ℕ
  pub rpc_cors : Bool → Setting Self (Option (List String))
  pub default_heap_pages : Setting Self (Option ℕ)
  pub force_authoring : Setting Self Bool
  pub disable_grandpa : Setting Self Bool
  pub max_runtime_instances : Setting Self (Option ℕ)
  pub announce_block : Setting Self Bool
  pub telemetry_endpoints : ChainSpec → Setting Self (Option V.TelemetryEndpoints)
  pub node_name : Setting Self String

-- `base` is the trait of the relay chain's arguments, `shared_base_path` is
-- `SharedParams::base_path`.
unfoldable pub cli_configuration :
    {V : SettingTypes} {RunCmd : Type 0}
    → (V.SharedParams → Result CliError (Option FilePath))
    → CliConfiguration V RunCmd
    → CliConfiguration V (RelayChainCli RunCmd)
cli_configuration shared_base_path base = record {
  shared_params = λ cli. base.shared_params cli.base;
  import_params = λ cli. base.import_params cli.base;
  network_params = λ cli. base.network_params cli.base;
  keystore_params = λ cli. base.keystore_params cli.base;
  base_path = base_path_of (λ cmd. shared_base_path (base.shared_params cmd));
  rpc_addr = λ port cli. base.rpc_addr port cli.base;
  prometheus_config = λ port chain_spec cli. base.prometheus_config port chain_spec cli.base;
  init = λ cli.
      panicked "internal error: entered unreachable code: PolkadotCli is never initialized; qed";
  chain_id = λ is_dev cli. chain_id_of (λ cmd dev. base.chain_id dev cmd) cli is_dev;
  role = λ is_dev cli. base.role is_dev cli.base;
  transaction_pool = λ is_dev cli. base.transaction_pool is_dev cli.base;
  trie_cache_maximum_size = λ cli. base.trie_cache_maximum_size cli.base;
  rpc_methods = λ cli. base.rpc_methods cli.base;
  rpc_max_connections = λ cli. base.rpc_max_connections cli.base;
  rpc_cors = λ is_dev cli. base.rpc_cors is_dev cli.base;
  default_heap_pages = λ cli. base.default_heap_pages cli.base;
  force_authoring = λ cli. base.force_authoring cli.base;
  disable_grandpa = λ cli. base.disable_grandpa cli.base;
  max_runtime_instances = λ cli. base.max_runtime_instances cli.base;
  announce_block = λ cli. base.announce_block cli.base;
  telemetry_endpoints = λ chain_spec cli. base.telemetry_endpoints chain_spec cli.base;
  node_name = λ cli. base.node_name cli.base;
}
