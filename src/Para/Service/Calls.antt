-- ===== src/Para/Service/Calls.antt =====
-- The SDK as service.rs uses it: types that it only passes on, the arguments that it puts
-- together, and the calls, each with the result that the SDK chooses. Clones, `Arc::new` and boxes
-- are the value itself, and an `await` waits for the result.
use sub0_bangkok_challenges.Common.{ℕ, String, Bool, Option, Result}
use sub0_bangkok_challenges.Node.Rpc as Rpc
use sub0_bangkok_challenges.Node.Task.{
  Configuration, NetworkConfiguration, ServiceError, Task, Endpoints,
}

pub record Types : Type 1 where
  pub Client : Type 0
  pub Backend : Type 0
  pub Keystore : Type 0
  pub Worker : Type 0
  pub WorkerHandle : Type 0
  pub Telemetry : Type 0
  pub Handle : Type 0
  pub Executor : Type 0
  pub Pool : Type 0
  pub BlockImport : Type 0
  pub ImportQueue : Type 0
  pub QueueService : Type 0
  pub RelayChainInterface : Type 0
  pub CollatorKey : Type 0
  pub CollatorOptions : Type 0
  pub HwBench : Type 0
  pub Network : Type 0
  pub SystemRpc : Type 0
  pub Controller : Type 0
  pub Starter : Type 0
  pub SyncService : Type 0
  pub NetConfig : Type 0
  pub RpcModule : Type 0
  pub RpcMethods : Type 0
  pub OverseerHandle : Type 0
  pub Proposer : Type 0
  pub Hash : Type 0
  pub Code : Type 0
  pub CodeHash : Type 0

-- The types of the RPC server. Its boxed error is a text here.
abbrev pub rpc_types : Types → Rpc.Types
rpc_types T = record {
  Client = T.Client;
  Pool = T.Pool;
  Module = T.RpcModule;
  Methods = T.RpcMethods;
  Error = String;
}

-- `HeapAllocStrategy`
pub data HeapAllocStrategy : Type 0 where
  default_strategy : HeapAllocStrategy
  static : (extra_pages : ℕ) → HeapAllocStrategy

-- What `ParachainExecutor::builder` is told.
pub record ExecutorOptions : Type 0 where
  pub execution_method : ℕ
  pub onchain_heap_alloc_strategy : HeapAllocStrategy
  pub offchain_heap_alloc_strategy : HeapAllocStrategy
  pub max_runtime_instances : ℕ
  pub runtime_cache_size : ℕ

-- `DARecoveryProfile`
pub data DaRecoveryProfile : Type 0 where
  collator full_node : DaRecoveryProfile

-- `CollatorSybilResistance`
pub data SybilResistance : Type 0 where
  resistant unresistant : SybilResistance

module _ (T : Types) where
  open T use {
    Client, Backend, Keystore, WorkerHandle, Handle, Pool, BlockImport, ImportQueue,
    RelayChainInterface, CollatorKey, Network, SystemRpc, Controller, SyncService, OverseerHandle,
    Proposer, Hash,
  }

  -- `PartialComponents`; the task manager is the log.
  pub record Partial : Type 0 where
    pub client : Client
    pub backend : Backend
    pub import_queue : ImportQueue
    pub keystore : Keystore
    pub transaction_pool : Pool
    pub block_import : BlockImport
    pub telemetry : Option T.Telemetry
    pub telemetry_worker_handle : Option WorkerHandle

  pub record ImportQueueParams : Type 0 where
    pub client : Client
    pub block_import : BlockImport
    -- from the system's time to the inherents
    pub create_inherent_data_providers : ℕ → ℕ
    pub registry : Option String
    pub telemetry : Option Handle

  pub record BuildNetworkParams : Type 0 where
    pub parachain_config : Configuration
    pub net_config : T.NetConfig
    pub client : Client
    pub transaction_pool : Pool
    pub para_id : ℕ
    pub relay_chain_interface : RelayChainInterface
    pub import_queue : ImportQueue
    pub sybil_resistance_level : SybilResistance

  pub record OffchainWorkerOptions : Type 0 where
    pub runtime_api_provider : Client
    pub keystore : Option Keystore
    pub offchain_db : Backend
    pub transaction_pool : Option Pool
    pub network_provider : Network
    pub is_validator : Bool
    pub enable_http_requests : Bool

  pub record SpawnTasksParams : Type 0 where
    -- of whether the server denies unsafe calls
    pub rpc_builder : Bool → Result ServiceError T.RpcModule
    pub client : Client
    pub transaction_pool : Pool
    pub config : Configuration
    pub keystore : Keystore
    pub backend : Backend
    pub network : Network
    pub sync_service : SyncService
    pub system_rpc_tx : SystemRpc
    pub tx_handler_controller : Controller
    pub telemetry : Option T.Telemetry

  pub record RelayChainTasksParams : Type 0 where
    pub client : Client
    pub announcer : SyncService
    pub para_id : ℕ
    pub relay_chain_interface : RelayChainInterface
    pub da_recovery_profile : DaRecoveryProfile
    pub import_queue : T.QueueService
    pub relay_chain_slot_duration_secs : ℕ
    pub recovery_handle : OverseerHandle
    pub sync_service : SyncService

  -- `AuraParams` of the lookahead collator.
  pub record AuraParams : Type 0 where
    pub block_import : BlockImport
    pub para_client : Client
    pub para_backend : Backend
    pub relay_client : RelayChainInterface
    pub code_hash_provider : Hash → Option T.CodeHash
    pub sync_oracle : SyncService
    pub keystore : Keystore
    pub collator_key : CollatorKey
    pub para_id : ℕ
    pub overseer_handle : OverseerHandle
    pub relay_chain_slot_duration_secs : ℕ
    pub proposer : Proposer
    pub announcer : SyncService
    pub authoring_duration_millis : ℕ
    pub reinitialize : Bool

  -- What the code does to the outside, in order. `lent` is a library call that is given a spawn
  -- handle or the task manager, by its name and whether what it gets is essential; what it spawns
  -- is its own.
  pub data Event : Type 0 where
    spawned : Task → Event
    lent : String → Bool → Event
    offchain_workers : OffchainWorkerOptions → Event
    hwbench_printed : T.HwBench → Event
    hardware_warning : String → Event
    collating : AuraParams → Event
    network_started : Event

  pub record Sdk : Type 0 where
    pub rpc : Rpc.Sdk (rpc_types T)
    pub prepare_node_config : Configuration → Configuration
    pub worker_new : ℕ → Result ServiceError T.Worker
    pub new_telemetry : T.Worker → Endpoints → T.Telemetry
    pub worker_handle : T.Worker → WorkerHandle
    pub handle : T.Telemetry → Handle
    pub build_executor : ExecutorOptions → T.Executor
    pub new_full_parts_record_import :
        Configuration
        → Option Handle
        → T.Executor
        → Bool
        → Result ServiceError (Client × Backend × Keystore)
    pub new_pool : ℕ → Bool → Option String → Client → Pool
    pub new_block_import : Client → Backend → BlockImport
    pub fully_verifying_import_queue : ImportQueueParams → ImportQueue
    pub queue_service : ImportQueue → T.QueueService
    -- its error is a text here: service.rs boxes it
    pub build_relay_chain_interface :
        Configuration
        → Configuration
        → Option WorkerHandle
        → T.CollatorOptions
        → Option T.HwBench
        → Result String (RelayChainInterface × Option CollatorKey)
    -- `FullNetworkConfiguration::new`
    pub network_configuration : NetworkConfiguration → T.NetConfig
    pub build_network :
        BuildNetworkParams
        → Result ServiceError (Network × SystemRpc × Controller × T.Starter × SyncService)
    pub spawn_tasks : SpawnTasksParams → Result ServiceError (Unit {0})
    pub check_hardware : T.HwBench → Result String (Unit {0})
    pub overseer_handle : RelayChainInterface → Result String OverseerHandle
    pub start_relay_chain_tasks : RelayChainTasksParams → Result ServiceError (Unit {0})
    pub proposer : Client → Pool → Option String → Option Handle → Proposer
    pub code_at : Client → Hash → Result String T.Code
    pub code_hash : T.Code → T.CodeHash
