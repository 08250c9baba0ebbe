-- ===== src/Para/Command/Calls.antt =====
-- What the command line of the parachain's node calls: the runs of the SDK's commands, and the
-- effects of a run, challenge-3/parachain-node/src/command.rs.
use sub0_bangkok_challenges.Common.{String, Option, List, Outcome, Result}
use sub0_bangkok_challenges.Node.Spec.{ChainSpec}
use sub0_bangkok_challenges.Node.Crypto.{Build}
use sub0_bangkok_challenges.Node.Task.{Configuration, NetworkConfiguration, FilePath}
use sub0_bangkok_challenges.Node.Cli.{CliError}
use sub0_bangkok_challenges.Para.Service.{Types, Event}
use sub0_bangkok_challenges.Para.Cli.{RelayChainCli, DefaultPorts}
use sub0_bangkok_challenges.Para.Cli.Settings.{SettingTypes, CliConfiguration}

-- The command line's types: the SDK's commands, the options of a run of the node and of its relay
-- chain, and the database and the storage that a benchmark reads.
pub record CliTypes : Type 1 where
  pub Cmd : Type 0
  pub RunCmd : Type 0
  pub RelayRunCmd : Type 0
  pub Settings : SettingTypes
  pub Db : Type 0
  pub Storage : Type 0

module _ (T : Types) (L : CliTypes) where
  open L use {Cmd}

  -- A call of a command's `run`, with what it is given.
  pub data Call : Type 0 where
    build_spec : Cmd → ChainSpec → NetworkConfiguration → Call
    check_block : Cmd → T.Client → T.ImportQueue → Call
    export_blocks : Cmd → T.Client → Option FilePath → Call
    export_state : Cmd → T.Client → ChainSpec → Call
    import_blocks : Cmd → T.Client → T.ImportQueue → Call
    -- there is nothing more to revert than the backend's blocks
    revert : Cmd → T.Client → T.Backend → Call
    purge_chain : Cmd → (config polkadot_config : Configuration) → Call
    export_genesis_head : Cmd → T.Client → Call
    export_genesis_wasm : Cmd → ChainSpec → Call
    benchmark_pallet : Cmd → ChainSpec → Call
    benchmark_block : Cmd → T.Client → Call
    benchmark_storage : Cmd → Configuration → T.Client → L.Db → L.Storage → Call
    benchmark_machine : Cmd → Configuration → Call

  pub data Action : Type 0 where
    called : Call → Action
    created_dir : FilePath → Action
    -- `sc_sysinfo::gather_hwbench`, which measures the machine
    gathered : FilePath → Action
    info_is_collating : String → Action
    node : Event T → Action

  -- The command line's side of the SDK.
  pub record Commands : Type 0 where
    -- it loads the chain specification, so it panics where `load_spec` does
    pub create_runner : Cmd → Outcome CliError Configuration
    pub normalize : L.RunCmd → Cmd
    pub collator_options : L.RunCmd → T.CollatorOptions
    pub perform : Call → Result CliError (Unit {0})
    pub chain : Cmd → Option String
    pub executable_name : String
    pub parse_from : List String → L.RelayRunCmd
    -- the settings of the relay chain's own arguments, and `SharedParams::base_path`
    pub relay_settings : CliConfiguration L.Settings L.RelayRunCmd
    pub shared_base_path : L.Settings.SharedParams → Result CliError (Option FilePath)
    -- `SubstrateCli::create_configuration`, of the relay chain's settings and default ports
    pub create_configuration :
        CliConfiguration L.Settings (RelayChainCli L.RelayRunCmd)
        → DefaultPorts
        → RelayChainCli L.RelayRunCmd
        → Result CliError Configuration
    pub display : CliError → String
    pub gather_hwbench : FilePath → T.HwBench
    pub expose_db : T.Backend → L.Db
    pub expose_storage : T.Backend → L.Storage
    -- `Cli::load_spec`, with what it needs besides the id
    pub load_chain : String → Build ChainSpec
