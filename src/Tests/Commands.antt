-- ===== src/Tests/Commands.antt =====
-- Command lines.
use sub0_bangkok_challenges.Common.{
  Option, done, ℕ, String, true, false, none, some, List, [], ◌∷◌, ok, ◌≡◌, ◌↔◌, refl, fail, pure,
  opt_list,
}
use sub0_bangkok_challenges.Common.Emits.{Emits, project}
use sub0_bangkok_challenges.Common.Panics.{Panics}
use sub0_bangkok_challenges.Node.Spec.{try_get}
use sub0_bangkok_challenges.Node.Task.{FilePath}
use sub0_bangkok_challenges.Node.Cli.{machine}
use sub0_bangkok_challenges.Solo.Cli as SoloCli
use sub0_bangkok_challenges.Solo.Command as SoloCommand
use sub0_bangkok_challenges.Solo.Command.Runs as SoloRuns
use sub0_bangkok_challenges.Para.Cli as ParaCli
use sub0_bangkok_challenges.Para.Cli.Settings as ParaSettings
use sub0_bangkok_challenges.Para.Cli.RelayChain.{Refines, new-Refines}
use sub0_bangkok_challenges.Para.Command as ParaCommand
use sub0_bangkok_challenges.Para.Command.Runs as ParaRuns
use sub0_bangkok_challenges.Para.Command.Outcomes.{ends, run-Ends}
use sub0_bangkok_challenges.Para.Command.Bench.{printed_of, gathered_of, run-Measures}
use sub0_bangkok_challenges.Common.Completes.{Completes}
use sub0_bangkok_challenges.Solo.Main as SoloMain
use sub0_bangkok_challenges.Solo.Command.Success as SoloSuccess
use sub0_bangkok_challenges.Para.Main as ParaMain
use sub0_bangkok_challenges.Para.Command.Success as ParaSuccess
use sub0_bangkok_challenges.Tests.Settings.{config_of_authority, chain_spec}
use sub0_bangkok_challenges.Tests.SoloNode as SoloNode
use sub0_bangkok_challenges.Tests.ParaNode as ParaNode

abbrev solo_commands : SoloCommand.Commands SoloNode.types ℕ ℕ
solo_commands = record {
  create_runner = λ cmd. done config_of_authority;
  create_node_runner = λ cmd. done config_of_authority;
  perform = λ call. ok tt;
  grandpa_revert = λ client blocks. ok tt;
}

abbrev solo_check_block : SoloCli.Cli ℕ ℕ
solo_check_block = record { subcommand = some (SoloCli.check_block 7); run = 0 }

abbrev solo_benchmark : SoloCli.Cli ℕ ℕ
solo_benchmark = record { subcommand = some (SoloCli.benchmark (machine 7)); run = 0 }

run-Emits_example :
    Emits SoloRuns.request_of
      (SoloRuns.request (some (SoloCli.check_block 7)) ∷ [])
      (SoloCommand.run solo_commands (λ _. SoloNode.sdk) solo_check_block)
run-Emits_example = SoloRuns.run-Emits solo_commands (λ _. SoloNode.sdk) solo_check_block

solo_commands-RunnersReturn : SoloRuns.RunnersReturn solo_commands
solo_commands-RunnersReturn = record {
  runner_calm = λ cmd s e. cc;
  node_runner_calm = λ cmd s e. cc;
}

run-Panics_example :
    Panics (SoloCommand.run solo_commands (λ _. SoloNode.sdk) solo_benchmark) ↔ (true ≡ true)
run-Panics_example =
    SoloRuns.run-Panics solo_commands (λ _. SoloNode.sdk) (λ _. SoloNode.sdk-HasGenesis)
      solo_commands-RunnersReturn solo_benchmark

-- Arguments that name no chain and no base path.
abbrev setting_types : ParaSettings.SettingTypes
setting_types = record {
  SharedParams = Option FilePath;
  ImportParams = ℕ;
  NetworkParams = ℕ;
  KeystoreParams = ℕ;
  SocketAddr = ℕ;
  PrometheusConfig = ℕ;
  Role = ℕ;
  TransactionPoolOptions = ℕ;
  RpcMethods = ℕ;
  TelemetryEndpoints = ℕ;
}

abbrev settings : ParaSettings.CliConfiguration setting_types (List String)
settings = record {
  shared_params = λ args. none;
  import_params = λ args. none;
  network_params = λ args. some 3;
  keystore_params = λ args. none;
  base_path = λ args. ok none;
  rpc_addr = λ port args. ok (some port);
  prometheus_config = λ port spec args. ok (some port);
  init = λ args. done tt;
  chain_id = λ is_dev args. ok "";
  role = λ is_dev args. ok 0;
  transaction_pool = λ is_dev args. ok 8192;
  trie_cache_maximum_size = λ args. ok none;
  rpc_methods = λ args. ok 1;
  rpc_max_connections = λ args. ok 100;
  rpc_cors = λ is_dev args. ok none;
  default_heap_pages = λ args. ok none;
  force_authoring = λ args. ok false;
  disable_grandpa = λ args. ok false;
  max_runtime_instances = λ args. ok (some 8);
  announce_block = λ args. ok true;
  telemetry_endpoints = λ spec args. ok none;
  node_name = λ args. ok "alice";
}

abbrev pub cli_types : ParaCommand.CliTypes
cli_types = record {
  Cmd = ℕ;
  RunCmd = ℕ;
  RelayRunCmd = List String;
  Settings = setting_types;
  Db = ℕ;
  Storage = ℕ;
}

abbrev pub para_commands : ParaCommand.Commands ParaNode.types cli_types
para_commands = record {
  create_runner = λ cmd. done config_of_authority;
  normalize = λ cmd. cmd;
  collator_options = λ cmd. cmd;
  perform = λ call. ok tt;
  chain = λ cmd. none;
  executable_name = "parachain-template-node";
  parse_from = λ args. args;
  relay_settings = settings;
  shared_base_path = λ path. ok path;
  create_configuration = λ settings ports cli. ok config_of_authority;
  display = λ e. "error";
  gather_hwbench = λ path. 21;
  expose_db = λ backend. backend;
  expose_storage = λ backend. backend;
  load_chain = λ id. fail "no chain";
}

-- `--no-hardware-benchmarks`
abbrev pub without_benchmarks : ParaCli.Cli ℕ ℕ
without_benchmarks = record {
  subcommand = none;
  run = 0;
  no_hardware_benchmarks = true;
  relay_chain_args = [];
}

run-Requests_example :
    Emits ParaRuns.request_of
      (ParaRuns.request none ∷ [])
      (ParaCommand.run para_commands ParaNode.sdk false without_benchmarks)
run-Requests_example = ParaRuns.run-Requests para_commands ParaNode.sdk false without_benchmarks

run-Measures_example :
    (project gathered_of (ParaCommand.run para_commands ParaNode.sdk false without_benchmarks).1
      ≡ opt_list (some ("data" ∷ [])))
    × Emits printed_of [] (ParaCommand.run para_commands ParaNode.sdk false without_benchmarks)
run-Measures_example =
    run-Measures para_commands ParaNode.sdk false without_benchmarks config_of_authority refl refl

run-Ends_example :
    (ParaCommand.run para_commands ParaNode.sdk false without_benchmarks).0
    ≡ ends para_commands ParaNode.sdk false without_benchmarks config_of_authority
        (try_get config_of_authority.chain_spec)
        (ok config_of_authority)
unfolding ParaCommand.create_relay_chain
run-Ends_example =
    run-Ends para_commands ParaNode.sdk false without_benchmarks config_of_authority refl refl

new-Refines_example :
    Refines
      (ParaSettings.cli_configuration (λ path. ok path) settings)
      settings
      (ParaCli.new (λ args. args) config_of_authority ("node" ∷ []))
      ("node" ∷ [])
      false
      ""
      "rococo-local"
      none
      ("base" ∷ "polkadot" ∷ [])
unfolding try_get
new-Refines_example =
    new-Refines (λ args. args) config_of_authority ("node" ∷ []) (λ path. ok path) settings false
      (record { relay_chain = "rococo-local"; para_id = 2000 }) "" none refl refl refl

solo_commands-CommandsWork : SoloSuccess.CommandsWork solo_commands
solo_commands-CommandsWork = record {
  runner = λ cmd. (config_of_authority, refl);
  node_runner = λ cmd. (config_of_authority, refl);
  performed = λ c. (tt, refl);
}

main-Completes_example :
    Completes (SoloMain.main solo_commands (λ _. SoloNode.sdk) solo_check_block)
    × (project SoloRuns.request_of
          (SoloMain.main solo_commands (λ _. SoloNode.sdk) solo_check_block).1
        ≡ SoloRuns.request (some (SoloCli.check_block 7)) ∷ [])
main-Completes_example =
    SoloSuccess.main-Completes solo_commands (λ _. SoloNode.sdk) solo_commands-CommandsWork
      (λ _. SoloNode.sdk-Works) solo_check_block refl

-- Every chain is found.
abbrev open_commands : ParaCommand.Commands ParaNode.types cli_types
open_commands = record para_commands { load_chain = λ id. pure chain_spec }

open_commands-CommandsWork :
    ParaSuccess.CommandsWork open_commands ParaNode.sdk false without_benchmarks
unfolding ParaCommand.create_relay_chain try_get pure
open_commands-CommandsWork = record {
  runner = λ cmd. (config_of_authority, refl);
  performed = λ c. (tt, refl);
  relay_chain = λ config. (config_of_authority, refl);
  chain = λ id. record { value = chain_spec; is_done = refl };
  parachain = λ config e. (record { relay_chain = "rococo-local"; para_id = 2000 }, cc);
  collator_key =
      λ config polkadot_config hwbench e. ParaNode.sdk-GivesKey config polkadot_config 0 hwbench;
}

main-Answers_example :
    Completes (ParaMain.main open_commands ParaNode.sdk false without_benchmarks)
    × (project ParaRuns.request_of
          (ParaMain.main open_commands ParaNode.sdk false without_benchmarks).1
        ≡ ParaRuns.request none ∷ [])
main-Answers_example =
    ParaSuccess.main-Answers open_commands ParaNode.sdk false without_benchmarks
      open_commands-CommandsWork ParaNode.sdk-Works
