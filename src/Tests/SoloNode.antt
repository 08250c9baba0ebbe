-- ===== src/Tests/SoloNode.antt =====
-- The solochain's node over an SDK whose calls succeed.
use sub0_bangkok_challenges.Common.{
  ℕ, ◌/◌, some, [], ◌∷◌, ok, ◌≡◌, refl, String, List, ◌++◌, err, if◌then◌else◌,
}
use sub0_bangkok_challenges.Node.Rpc.Methods.{disjoint}
use sub0_bangkok_challenges.Common.Emits.{Emits}
use sub0_bangkok_challenges.Common.Last.{OnlyLast}
use sub0_bangkok_challenges.Node.Task.{active_endpoints}
use sub0_bangkok_challenges.Solo.Service.{Types, network_started, Sdk, new_full}
use sub0_bangkok_challenges.Solo.Service.Tasks.{
  task_of, telemetry_task, offchain_task, aura_task, voter_task, expected_tasks, new_full-tasks,
}
use sub0_bangkok_challenges.Solo.Service.Network.{start_of, new_full-OnlyLast}
use sub0_bangkok_challenges.Solo.Service.Consensus.{duty_of, duties, new_full-duties}
use sub0_bangkok_challenges.Solo.Service.OnRuntime.{AnswersFrom, new_full-RuntimeSlots}
use sub0_bangkok_challenges.Tests.Apis.{pallets}
use sub0_bangkok_challenges.Runtime.Constants.{millisecs_per_block}
use sub0_bangkok_challenges.Runtime.Apis.Consensus as RuntimeConsensus
use sub0_bangkok_challenges.Solo.Service.Slots.{
  maker_at, imports, authors, slots, new_full-Inherents,
}
use sub0_bangkok_challenges.Solo.Service.Success.{HasGenesis, Works}
use sub0_bangkok_challenges.Tests.Settings.{config_of_authority, config_of_full_node}

-- Handles of the SDK are numbers.
abbrev pub types : Types
types = record {
  Client = ℕ;
  Backend = ℕ;
  Keystore = ℕ;
  Executor = ℕ;
  Worker = ℕ;
  Telemetry = ℕ;
  Handle = ℕ;
  SelectChain = ℕ;
  Pool = ℕ;
  BlockImport = ℕ;
  Link = ℕ;
  ImportQueue = ℕ;
  Hash = ℕ;
  ProtocolName = ℕ;
  NotificationService = ℕ;
  WarpSync = ℕ;
  Network = ℕ;
  SystemRpc = ℕ;
  Controller = ℕ;
  Starter = ℕ;
  SyncService = ℕ;
  NetConfig = ℕ;
  ProtocolConfig = ℕ;
  PeerStore = ℕ;
  Metrics = ℕ;
  RpcModule = List String;
  RpcMethods = List String;
  Proposer = ℕ;
  Slot = ℕ;
}

abbrev pub sdk : Sdk types
sdk = record {
  rpc = record {
    empty = [];
    system = λ client pool deny_unsafe. "system_accountNextIndex" ∷ "system_dryRun" ∷ [];
    transaction_payment = λ client. "payment_queryInfo" ∷ "payment_queryFeeDetails" ∷ [];
    merge = λ m methods. if disjoint m methods then ok (m ++ methods) else err "already registered";
  };
  worker_new = λ buffer. ok buffer;
  new_telemetry = λ worker endpoints. 1;
  handle = λ telemetry. telemetry;
  new_wasm_executor = λ config. 2;
  new_full_parts = λ config handle executor. ok (3, 4, 5);
  longest_chain = λ backend. 6;
  new_pool = λ options validator registry client. 7;
  grandpa_block_import = λ client period chain handle. ok (8, 9);
  slot_duration_at = λ client hash. ok 6000;
  slot_from_timestamp = λ timestamp slot_duration. timestamp / slot_duration;
  new_import_queue = λ params. ok 10;
  genesis_hash = λ client. some 0;
  network_configuration = λ config. 20;
  register_notification_metrics = λ registry. 21;
  peer_store_handle = λ config. 22;
  protocol_standard_name = λ hash spec. 11;
  grandpa_peers_set_config = λ protocol metrics peer_store. (23, 12);
  add_notification_protocol = λ config protocol. 24;
  warp_sync = λ backend link. 13;
  build_network = λ params. ok (14, 15, 16, 17, 18);
  spawn_tasks = λ params. ok tt;
  proposer_factory = λ client pool registry handle. 19;
  slot_duration = λ client. ok 6000;
  start_aura = λ params. ok tt;
  run_grandpa_voter = λ params. ok tt;
}

pub sdk-HasGenesis : HasGenesis sdk
sdk-HasGenesis client e = cc

pub sdk-Works : Works sdk
sdk-Works = record {
  genesis = sdk-HasGenesis;
  worker = λ buffer. (buffer, refl);
  parts = λ config handle executor. ((3, 4, 5), refl);
  grandpa = λ client period chain handle. ((8, 9), refl);
  queue = λ params. (10, refl);
  network = λ params. ((14, 15, 16, 17, 18), refl);
  rpc = λ params. (tt, refl);
  slots = λ client. (6000, refl);
  aura = λ params. (tt, refl);
  vote = λ params. (tt, refl);
}

-- An authority with telemetry and offchain workers has all four tasks.
four_tasks :
    expected_tasks config_of_authority
    ≡ telemetry_task ∷ offchain_task ∷ aura_task ∷ voter_task ∷ []
unfolding expected_tasks active_endpoints
four_tasks = refl

no_tasks : expected_tasks config_of_full_node ≡ []
unfolding expected_tasks active_endpoints
no_tasks = refl

new_full-tasks_example :
    Emits task_of (expected_tasks config_of_authority) (new_full sdk config_of_authority)
new_full-tasks_example = new_full-tasks sdk config_of_authority

new_full-OnlyLast_example : OnlyLast start_of network_started (new_full sdk config_of_authority)
new_full-OnlyLast_example = new_full-OnlyLast sdk config_of_authority

new_full-duties_example :
    Emits duty_of (duties config_of_authority) (new_full sdk config_of_authority)
new_full-duties_example = new_full-duties sdk config_of_authority

new_full-Inherents_example :
    Emits
      (maker_at 0)
      (imports (slots sdk 6000) ∷ authors (slots sdk 6000) ∷ [])
      (new_full sdk config_of_authority)
new_full-Inherents_example =
    new_full-Inherents sdk 6000 0 (λ client. refl) (λ client. refl) config_of_authority

sdk-AnswersFrom : AnswersFrom sdk pallets
unfolding RuntimeConsensus.slot_duration
sdk-AnswersFrom = record {
  best = λ client. 0;
  state_at = λ client hash. hash;
  at_start = λ client d e. cc;
  at_block = λ client hash d e. cc;
}

new_full-RuntimeSlots_example :
    Emits
      (maker_at 17)
      (imports (slots sdk millisecs_per_block) ∷ authors (slots sdk millisecs_per_block) ∷ [])
      (new_full sdk config_of_authority)
new_full-RuntimeSlots_example =
    new_full-RuntimeSlots sdk pallets sdk-AnswersFrom 17 config_of_authority
