-- ===== src/Solo/Service/Calls.antt =====
-- The SDK as service.rs uses it: types that it only passes on, the arguments that it puts
-- together, and the calls, each with the outcome that the SDK chooses. Clones, `Arc::new` and
-- boxes are the value itself.
use sub0_bangkok_challenges.Common.{ℕ, String, Bool, Option, Result}
use sub0_bangkok_challenges.Node.Rpc as Rpc
use sub0_bangkok_challenges.Node.Spec.{ChainSpec}
use sub0_bangkok_challenges.Node.Task.{
  Configuration, NetworkConfiguration, Role, ServiceError, Task, Endpoints,
}

pub record Types : Type 1 where
  pub Client : Type 0
  pub Backend : Type 0
  pub Keystore : Type 0
  pub Executor : Type 0
  pub Worker : Type 0
  pub Telemetry : Type 0
  pub Handle : Type 0
  pub SelectChain : Type 0
  pub Pool : Type 0
  pub BlockImport : Type 0
  pub Link : Type 0
  pub ImportQueue : Type 0
  pub Hash : Type 0
  pub ProtocolName : Type 0
  pub NotificationService : Type 0
  pub WarpSync : Type 0
  pub Network : Type 0
  pub SystemRpc : Type 0
  pub Controller : Type 0
  pub Starter : Type 0
  pub SyncService : Type 0
  pub NetConfig : Type 0
  pub ProtocolConfig : Type 0
  pub PeerStore : Type 0
  pub Metrics : Type 0
  pub RpcModule : Type 0
  pub RpcMethods : Type 0
  pub Proposer : Type 0
  pub Slot : Type 0

-- The types of the RPC server. Its boxed error is a text here.
abbrev pub rpc_types : Types → Rpc.Types
rpc_types T = record {
  Client = T.Client;
  Pool = T.Pool;
  Module = T.RpcModule;
  Methods = T.RpcMethods;
  Error = String;
}

module _ (T : Types) where
  open T use {
    Client, Backend, Keystore, Handle, SelectChain, Pool, BlockImport, Link, ImportQueue, Hash,
    ProtocolName, NotificationService, WarpSync, Network, SystemRpc, Controller, SyncService,
    Proposer, Slot,
  }

  -- `sc_service::PartialComponents`; the task manager is the log.
  pub record Partial : Type 0 where
    pub client : Client
    pub backend : Backend
    pub import_queue : ImportQueue
    pub keystore : Keystore
    pub select_chain : SelectChain
    pub transaction_pool : Pool
    pub block_import : BlockImport
    pub grandpa_link : Link
    pub telemetry : Option T.Telemetry

  -- The slot and timestamp inherents, from the system's time.
  abbrev pub Inherents : Type 0
  Inherents = ℕ → Result ServiceError (Slot × ℕ)

  pub record ImportQueueParams : Type 0 where
    pub block_import : BlockImport
    pub justification_import : Option BlockImport
    pub client : Client
    pub create_inherent_data_providers : Hash → Inherents
    pub registry : Option String
    pub telemetry : Option Handle

  pub record BuildNetworkParams : Type 0 where
    pub config : Configuration
    pub net_config : T.NetConfig
    pub client : Client
    pub transaction_pool : Pool
    pub import_queue : ImportQueue
    pub warp_sync : Option WarpSync
    pub metrics : T.Metrics

  pub record OffchainWorkerOptions : Type 0 where
    pub runtime_api_provider : Client
    pub is_validator : Bool
    pub keystore : Option Keystore
    pub offchain_db : Backend
    pub transaction_pool : Option Pool
    pub network_provider : Network
    pub enable_http_requests : Bool

  pub record SpawnTasksParams : Type 0 where
    pub network : Network
    pub client : Client
    pub keystore : Keystore
    pub transaction_pool : Pool
    -- of whether the server denies unsafe calls
    pub rpc_builder : Bool → Result ServiceError T.RpcModule
    pub backend : Backend
    pub system_rpc_tx : SystemRpc
    pub tx_handler_controller : Controller
    pub sync_service : SyncService
    pub config : Configuration
    pub telemetry : Option T.Telemetry

  pub record StartAuraParams : Type 0 where
    pub slot_duration : ℕ
    pub client : Client
    pub select_chain : SelectChain
    pub block_import : BlockImport
    pub proposer_factory : Proposer
    pub create_inherent_data_providers : Inherents
    pub force_authoring : Bool
    pub keystore : Keystore
    pub sync_oracle : SyncService
    pub justification_sync_link : SyncService
    -- `SlotProportion::new(2f32 / 3f32)`, as a numerator and a denominator
    pub block_proposal_slot_portion : ℕ × ℕ
    pub max_block_proposal_slot_portion : Option (ℕ × ℕ)
    pub telemetry : Option Handle

  pub record GrandpaParams : Type 0 where
    pub gossip_duration_millis : ℕ
    pub justification_generation_period : ℕ
    pub name : Option String
    pub observer_enabled : Bool
    pub keystore : Option Keystore
    pub local_role : Role
    pub telemetry : Option Handle
    pub protocol_name : ProtocolName
    pub link : Link
    pub network : Network
    pub sync : SyncService
    pub notification_service : NotificationService
    pub prometheus_registry : Option String
    pub transaction_pool : Pool

  -- What the code does to the outside, in order. `lent` is a library call that is given a spawn
  -- handle, by its name and whether the handle is the essential one; what it spawns is its own.
  pub data Event : Type 0 where
    spawned : Task → Event
    lent : String → Bool → Event
    offchain_workers : OffchainWorkerOptions → Event
    importing : ImportQueueParams → Event
    voter : GrandpaParams → Event
    author : StartAuraParams → Event
    network_started : Event

  -- The calls. `now`-dependent work is in `Inherents`.
  pub record Sdk : Type 0 where
    pub rpc : Rpc.Sdk (rpc_types T)
    pub worker_new : ℕ → Result ServiceError T.Worker
    pub new_telemetry : T.Worker → Endpoints → T.Telemetry
    pub handle : T.Telemetry → Handle
    pub new_wasm_executor : Configuration → T.Executor
    pub new_full_parts :
        Configuration
        → Option Handle
        → T.Executor
        → Result ServiceError (Client × Backend × Keystore)
    pub longest_chain : Backend → SelectChain
    pub new_pool : ℕ → Bool → Option String → Client → Pool
    pub grandpa_block_import :
        Client → ℕ → SelectChain → Option Handle → Result ServiceError (BlockImport × Link)
    pub slot_duration_at : Client → Hash → Result ServiceError ℕ
    pub slot_from_timestamp : ℕ → ℕ → Slot
    pub new_import_queue : ImportQueueParams → Result ServiceError ImportQueue
    -- `client.block_hash(0).ok().flatten()`
    pub genesis_hash : Client → Option Hash
    -- `FullNetworkConfiguration::new`
    pub network_configuration : NetworkConfiguration → T.NetConfig
    pub register_notification_metrics : Option String → T.Metrics
    pub peer_store_handle : T.NetConfig → T.PeerStore
    pub protocol_standard_name : Hash → ChainSpec → ProtocolName
    pub grandpa_peers_set_config :
        ProtocolName → T.Metrics → T.PeerStore → T.ProtocolConfig × NotificationService
    pub add_notification_protocol : T.NetConfig → T.ProtocolConfig → T.NetConfig
    -- `warp_proof::NetworkProvider::new`, of the link's authorities and no hard forks
    pub warp_sync : Backend → Link → WarpSync
    pub build_network :
        BuildNetworkParams
        → Result ServiceError (Network × SystemRpc × Controller × T.Starter × SyncService)
    pub spawn_tasks : SpawnTasksParams → Result ServiceError (Unit {0})
    pub proposer_factory : Client → Pool → Option String → Option Handle → Proposer
    pub slot_duration : Client → Result ServiceError ℕ
    pub start_aura : StartAuraParams → Result ServiceError (Unit {0})
    pub run_grandpa_voter : GrandpaParams → Result ServiceError (Unit {0})
