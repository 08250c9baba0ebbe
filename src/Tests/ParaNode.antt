-- ===== src/Tests/ParaNode.antt =====
-- The parachain's node over an SDK whose calls succeed.
use sub0_bangkok_challenges.Common.{
  ℕ, Option, some, [], ◌∷◌, ok, err, ◌≡◌, refl, String, List, ◌++◌, if◌then◌else◌,
}
use sub0_bangkok_challenges.Node.Rpc.Methods.{disjoint}
use sub0_bangkok_challenges.Common.Emits.{Emits}
use sub0_bangkok_challenges.Common.Last.{OnlyLast}
use sub0_bangkok_challenges.Node.Task.{Configuration, authority, active_endpoints}
use sub0_bangkok_challenges.Para.Service.{
  Types, network_started, Sdk, aura_task, start_parachain_node,
}
use sub0_bangkok_challenges.Para.Service.Tasks.{
  task_of, telemetry_task, offchain_task, hwbench_task, expected_tasks, start_parachain_node-tasks,
}
use sub0_bangkok_challenges.Para.Service.Network.{start_of, start_parachain_node-OnlyLast}
use sub0_bangkok_challenges.Para.Service.Reports.{
  duty_of, warns, collates, duties, hardware_duties, warnings, start_parachain_node-duties,
}
use sub0_bangkok_challenges.Para.Service.Calm.{GivesKey}
use sub0_bangkok_challenges.Para.Service.Success.{Works}
use sub0_bangkok_challenges.Tests.Settings.{config_of_authority, config_of_full_node}

-- Handles of the SDK are numbers.
abbrev pub types : Types
types = record {
  Client = ℕ;
  Backend = ℕ;
  Keystore = ℕ;
  Worker = ℕ;
  WorkerHandle = ℕ;
  Telemetry = ℕ;
  Handle = ℕ;
  Executor = ℕ;
  Pool = ℕ;
  BlockImport = ℕ;
  ImportQueue = ℕ;
  QueueService = ℕ;
  RelayChainInterface = ℕ;
  CollatorKey = ℕ;
  CollatorOptions = ℕ;
  HwBench = ℕ;
  Network = ℕ;
  SystemRpc = ℕ;
  Controller = ℕ;
  Starter = ℕ;
  SyncService = ℕ;
  NetConfig = ℕ;
  RpcModule = List String;
  RpcMethods = List String;
  OverseerHandle = ℕ;
  Proposer = ℕ;
  Hash = ℕ;
  Code = ℕ;
  CodeHash = ℕ;
}

-- The hardware is too slow.
abbrev pub sdk : Sdk types
sdk = record {
  rpc = record {
    empty = [];
    system = λ client pool deny_unsafe. "system_accountNextIndex" ∷ "system_dryRun" ∷ [];
    transaction_payment = λ client. "payment_queryInfo" ∷ "payment_queryFeeDetails" ∷ [];
    merge = λ m methods. if disjoint m methods then ok (m ++ methods) else err "already registered";
  };
  prepare_node_config = λ config. config;
  worker_new = λ buffer. ok buffer;
  new_telemetry = λ worker endpoints. 1;
  worker_handle = λ worker. worker;
  handle = λ telemetry. telemetry;
  build_executor = λ options. 2;
  new_full_parts_record_import = λ config handle executor record_import. ok (3, 4, 5);
  new_pool = λ options validator registry client. 6;
  new_block_import = λ client backend. 7;
  fully_verifying_import_queue = λ params. 8;
  queue_service = λ queue. 9;
  build_relay_chain_interface = λ polkadot_config config worker options hwbench. ok (10, some 11);
  network_configuration = λ config. 21;
  build_network = λ params. ok (12, 13, 14, 15, 16);
  spawn_tasks = λ params. ok tt;
  check_hardware = λ hwbench. err "slow";
  overseer_handle = λ interface. ok 17;
  start_relay_chain_tasks = λ params. ok tt;
  proposer = λ client pool registry handle. 18;
  code_at = λ client hash. ok 19;
  code_hash = λ code. 20;
}

pub sdk-GivesKey :
    (config polkadot_config : Configuration) (options : ℕ) (hwbench : Option ℕ)
    → GivesKey sdk config polkadot_config options hwbench
sdk-GivesKey config polkadot_config options hwbench worker interface key e none_eq = cc

pub sdk-Works : Works sdk
sdk-Works = record {
  worker = λ buffer. (buffer, refl);
  parts = λ config handle executor record_import. ((3, 4, 5), refl);
  relay = λ polkadot_config config worker options hwbench. ((10, some 11), refl);
  network = λ params. ((12, 13, 14, 15, 16), refl);
  rpc = λ params. (tt, refl);
  overseer = λ interface. (17, refl);
  tasks = λ params. (tt, refl);
}

-- An authority with telemetry, offchain workers and a benchmark has all four tasks.
four_tasks :
    expected_tasks sdk config_of_authority (some 21)
    ≡ telemetry_task ∷ offchain_task ∷ hwbench_task ∷ aura_task sdk ∷ []
unfolding expected_tasks active_endpoints
four_tasks = refl

two_duties : duties sdk authority 2000 (some 21) ≡ warns "slow" ∷ collates 2000 6 2000 ∷ []
unfolding duties hardware_duties warnings
two_duties = refl

start_parachain_node-tasks_example :
    Emits task_of
      (expected_tasks sdk config_of_authority (some 21))
      (start_parachain_node sdk config_of_authority config_of_full_node 0 2000 (some 21))
start_parachain_node-tasks_example =
    start_parachain_node-tasks sdk config_of_authority config_of_full_node 0 2000 (some 21)

start_parachain_node-OnlyLast_example :
    OnlyLast start_of network_started
      (start_parachain_node sdk config_of_authority config_of_full_node 0 2000 (some 21))
start_parachain_node-OnlyLast_example =
    start_parachain_node-OnlyLast sdk config_of_authority config_of_full_node 0 2000 (some 21)

start_parachain_node-duties_example :
    Emits duty_of
      (duties sdk authority 2000 (some 21))
      (start_parachain_node sdk config_of_authority config_of_full_node 0 2000 (some 21))
start_parachain_node-duties_example =
    start_parachain_node-duties sdk config_of_authority config_of_full_node 0 2000 (some 21)
