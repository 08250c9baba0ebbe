-- ===== src/Para/Cli/RelayChain.antt =====
-- Which relay chain a parachain's node runs, and where.
use sub0_bangkok_challenges.Common.{
  ◌≡◌, refl, ap, ℕ, panicked, String, Bool, true, false, Option, none, some, List, [], ◌∷◌, ◌++◌,
  Result, ok, if◌then◌else◌, str_eq,
}
use sub0_bangkok_challenges.Node.Spec.{ChainSpec, Extensions, try_get}
use sub0_bangkok_challenges.Node.Task.{Configuration, FilePath}
use sub0_bangkok_challenges.Node.Cli.{CliError}
use sub0_bangkok_challenges.Para.Cli.{RelayChainCli, new, or_else, base_path_of, chain_id_of}
use sub0_bangkok_challenges.Para.Cli.Settings.{SettingTypes, CliConfiguration, cli_configuration}

-- What the relay chain's own arguments say, or else what the parachain gives.
pub given_or : {A : Type 0} → Option A → A → A
given_or none default = default
given_or (some a) default = a

-- The chain of the arguments, where the empty id is none.
pub named : String → Option String
named id = if str_eq id "" then none else some id

given_or-named :
    (id default : String) (b : Bool)
    → (if b then default else id) ≡ given_or (if b then none else some id) default
unfolding given_or
given_or-named id default true = refl
given_or-named id default false = refl

or_else-given :
    {A : Type 0} (path : Option A) (default : A)
    → or_else path (some default) ≡ some (given_or path default)
unfolding given_or
or_else-given none default = refl
or_else-given (some p) default = refl

-- The abstract view of the relay chain's settings: those of its own arguments, `own`, with defaults
-- for the chain and the base path. It is never initialised by itself.
pub record Refines {V : SettingTypes} {RunCmd : Type 0}
    (settings : CliConfiguration V (RelayChainCli RunCmd)) (base : CliConfiguration V RunCmd)
    (cli : RelayChainCli RunCmd) (own : RunCmd) (is_dev : Bool) (id default_chain : String)
    (path : Option FilePath) (default_path : FilePath) : Type 0 where
  pub chain : settings.chain_id is_dev cli ≡ ok (given_or (named id) default_chain)
  pub path_of_base : settings.base_path cli ≡ ok (some (given_or path default_path))
  pub shared : settings.shared_params cli ≡ base.shared_params own
  pub imports : settings.import_params cli ≡ base.import_params own
  pub network : settings.network_params cli ≡ base.network_params own
  pub keystore : settings.keystore_params cli ≡ base.keystore_params own
  pub rpc : (port : ℕ) → settings.rpc_addr port cli ≡ base.rpc_addr port own
  pub prometheus :
      (port : ℕ) (spec : ChainSpec)
      → settings.prometheus_config port spec cli ≡ base.prometheus_config port spec own
  pub role : settings.role is_dev cli ≡ base.role is_dev own
  pub pool : settings.transaction_pool is_dev cli ≡ base.transaction_pool is_dev own
  pub trie_cache : settings.trie_cache_maximum_size cli ≡ base.trie_cache_maximum_size own
  pub methods : settings.rpc_methods cli ≡ base.rpc_methods own
  pub connections : settings.rpc_max_connections cli ≡ base.rpc_max_connections own
  pub cors : settings.rpc_cors is_dev cli ≡ base.rpc_cors is_dev own
  pub heap : settings.default_heap_pages cli ≡ base.default_heap_pages own
  pub authoring : settings.force_authoring cli ≡ base.force_authoring own
  pub grandpa : settings.disable_grandpa cli ≡ base.disable_grandpa own
  pub instances : settings.max_runtime_instances cli ≡ base.max_runtime_instances own
  pub announce : settings.announce_block cli ≡ base.announce_block own
  pub telemetry :
      (spec : ChainSpec) → settings.telemetry_endpoints spec cli ≡ base.telemetry_endpoints spec own
  pub name : settings.node_name cli ≡ base.node_name own
  pub initialisation : (message : String) × (settings.init cli ≡ panicked message)

module _ {V : SettingTypes} {RunCmd : Type 0} (parse_from : List String → RunCmd)
    (config : Configuration) (args : List String) where
  -- If the parachain's specification names its relay chain, and the chain and the base path of the
  -- relay chain's own arguments can be read, then the relay chain runs on the chain and under the
  -- base path of these arguments where they give them, and else on the chain that the specification
  -- names and in the directory `polkadot` under the parachain's base path. Every other setting is
  -- that of its own arguments, and to initialise it is a panic.
  pub new-Refines :
      (shared_base_path : V.SharedParams → Result CliError (Option FilePath))
      (base : CliConfiguration V RunCmd) (is_dev : Bool) (extensions : Extensions) (id : String)
      (path : Option FilePath)
      → try_get config.chain_spec ≡ some extensions
      → base.chain_id is_dev (parse_from args) ≡ ok id
      → shared_base_path (base.shared_params (parse_from args)) ≡ ok path
      → Refines
          (cli_configuration shared_base_path base)
          base
          (new parse_from config args)
          (parse_from args)
          is_dev
          id
          extensions.relay_chain
          path
          (config.base_path ++ ("polkadot" ∷ []))
  unfolding new chain_id_of base_path_of named cli_configuration
  new-Refines shared_base_path base is_dev extensions id path et ec ep = record {
    chain = rw (et, ec, given_or-named id extensions.relay_chain (str_eq id ""));
    path_of_base = rw (ep) (ap (λ p. ok p) (or_else-given path _));
    shared = refl;
    imports = refl;
    network = refl;
    keystore = refl;
    rpc = λ port. refl;
    prometheus = λ port spec. refl;
    role = refl;
    pool = refl;
    trie_cache = refl;
    methods = refl;
    connections = refl;
    cors = refl;
    heap = refl;
    authoring = refl;
    grandpa = refl;
    instances = refl;
    announce = refl;
    telemetry = λ spec. refl;
    name = refl;
    initialisation = (_, refl);
  }
