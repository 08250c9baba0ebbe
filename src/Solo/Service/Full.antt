-- ===== src/Solo/Service/Full.antt =====
-- `new_full`: the network, the offchain worker, the RPC server, and the two consensus tasks.
use sub0_bangkok_challenges.Common.{
  ℕ, Bool, true, false, not, none, some, Result, map_err, ◌>>=◌, ◌>>◌, pure, lift, emit, when,
  expect, ok, if◌then◌else◌,
}
use sub0_bangkok_challenges.Node.Rpc.{create_full}
use sub0_bangkok_challenges.Node.Task.{
  Configuration, ServiceError, application, plain, is_authority,
}
use sub0_bangkok_challenges.Solo.Service.Calls.{
  Types, Partial, Inherents, StartAuraParams, GrandpaParams, spawned, lent, offchain_workers, voter,
  author, network_started, Sdk,
}
use sub0_bangkok_challenges.Solo.Service.Setup.{
  grandpa_justification_period, Run, handle_of, new_partial,
}

module _ {T : Types} (S : Sdk T) where
  -- What `new_full` holds once the network is built.
  pub record Node : Type 0 where
    pub partial : Partial T
    pub protocol_name : T.ProtocolName
    pub notification_service : T.NotificationService
    pub network : T.Network
    pub system_rpc_tx : T.SystemRpc
    pub controller : T.Controller
    pub starter : T.Starter
    pub sync_service : T.SyncService

  unfoldable pub build_network : Configuration → Partial T → Run S Node
  build_network config p = do
    let net_config = S.network_configuration config.network
    let metrics = S.register_notification_metrics config.prometheus_registry
    let peer_store_handle = S.peer_store_handle net_config
    genesis ← expect (S.genesis_hash p.client) "Genesis block exists; qed"
    let protocol_name = S.protocol_standard_name genesis config.chain_spec
    let (protocol_config, notification_service) =
        S.grandpa_peers_set_config protocol_name metrics peer_store_handle
    emit (lent "network" false)
    (network, system_rpc_tx, controller, starter, sync_service) ← lift (
        S.build_network (record {
          config = config;
          net_config = S.add_notification_protocol net_config protocol_config;
          client = p.client;
          transaction_pool = p.transaction_pool;
          import_queue = p.import_queue;
          warp_sync = some (S.warp_sync p.backend p.grandpa_link);
          metrics = metrics;
        }))
    pure (record {
      partial = p;
      protocol_name = protocol_name;
      notification_service = notification_service;
      network = network;
      system_rpc_tx = system_rpc_tx;
      controller = controller;
      starter = starter;
      sync_service = sync_service;
    })

  unfoldable pub spawn_offchain_workers : Configuration → Node → Run S (Unit {0})
  spawn_offchain_workers config n = do
    emit (
        offchain_workers (record {
          runtime_api_provider = n.partial.client;
          is_validator = is_authority config.role;
          keystore = some n.partial.keystore;
          offchain_db = n.partial.backend;
          transaction_pool = some n.partial.transaction_pool;
          network_provider = n.network;
          enable_http_requests = true;
        }))
    emit (lent "offchain-workers" false)
    emit (spawned (plain "offchain-workers-runner" (some "offchain-worker")))

  -- `create_full(deps).map_err(Into::into)`
  unfoldable pub rpc_extensions_builder : Node → Bool → Result ServiceError T.RpcModule
  rpc_extensions_builder n deny_unsafe = map_err application (
      create_full S.rpc (record {
        client = n.partial.client;
        pool = n.partial.transaction_pool;
        deny_unsafe = deny_unsafe;
      }))

  -- `spawn_tasks`, with the builder of the RPC extensions.
  unfoldable pub spawn_rpc : Configuration → Node → Run S (Unit {0})
  spawn_rpc config n = do
    emit (lent "rpc" false)
    lift (
        S.spawn_tasks (record {
          network = n.network;
          client = n.partial.client;
          keystore = n.partial.keystore;
          transaction_pool = n.partial.transaction_pool;
          rpc_builder = rpc_extensions_builder n;
          backend = n.partial.backend;
          system_rpc_tx = n.system_rpc_tx;
          tx_handler_controller = n.controller;
          sync_service = n.sync_service;
          config = config;
          telemetry = n.partial.telemetry;
        }))

  -- The inherents that the author puts into a block: the slot duration was read once, at start.
  unfoldable pub author_inherents : ℕ → Inherents T
  author_inherents slot_duration timestamp =
      ok (S.slot_from_timestamp timestamp slot_duration, timestamp)

  unfoldable pub aura_params : Configuration → Node → ℕ → StartAuraParams T
  aura_params config n slot_duration = record {
    slot_duration = slot_duration;
    client = n.partial.client;
    select_chain = n.partial.select_chain;
    block_import = n.partial.block_import;
    proposer_factory =
        S.proposer_factory n.partial.client n.partial.transaction_pool config.prometheus_registry
          (handle_of S n.partial.telemetry);
    create_inherent_data_providers = author_inherents slot_duration;
    force_authoring = config.force_authoring;
    keystore = n.partial.keystore;
    sync_oracle = n.sync_service;
    justification_sync_link = n.sync_service;
    block_proposal_slot_portion = (2, 3);
    max_block_proposal_slot_portion = none;
    telemetry = handle_of S n.partial.telemetry;
  }

  unfoldable pub start_authoring : Configuration → Node → Run S (Unit {0})
  unfolding aura_params
  start_authoring config n = do
    emit (lent "proposer" false)
    slot_duration ← lift (S.slot_duration n.partial.client)
    lift (S.start_aura (aura_params config n slot_duration))
    emit (author (aura_params config n slot_duration))
    emit (
        spawned (record {
          name = "aura";
          group = some "block-authoring";
          essential = true;
          blocking = true;
        }))

  unfoldable pub grandpa_params : Configuration → Node → GrandpaParams T
  grandpa_params config n = record {
    gossip_duration_millis = 333;
    justification_generation_period = grandpa_justification_period;
    name = some config.network.node_name;
    observer_enabled = false;
    keystore = if is_authority config.role then some n.partial.keystore else none;
    local_role = config.role;
    telemetry = handle_of S n.partial.telemetry;
    protocol_name = n.protocol_name;
    link = n.partial.grandpa_link;
    network = n.network;
    sync = n.sync_service;
    notification_service = n.notification_service;
    prometheus_registry = config.prometheus_registry;
    transaction_pool = n.partial.transaction_pool;
  }

  -- `run_grandpa_voter(..)?` is an argument of `spawn_blocking`: nothing is spawned if it fails.
  unfoldable pub start_voter : Configuration → Node → Run S (Unit {0})
  unfolding grandpa_params
  start_voter config n = do
    lift (S.run_grandpa_voter (grandpa_params config n))
    emit (voter (grandpa_params config n))
    emit (
        spawned
          (record { name = "grandpa-voter"; group = none; essential = true; blocking = true }))

  -- All of `new_full` but its last call.
  unfoldable pub set_up : Configuration → Run S Node
  unfolding new_partial build_network spawn_offchain_workers spawn_rpc start_authoring start_voter
  set_up config = do
    p ← new_partial S config
    n ← build_network config p
    when config.offchain_worker_enabled (spawn_offchain_workers config n)
    spawn_rpc config n
    when (is_authority config.role) (start_authoring config n)
    when (not config.disable_grandpa) (start_voter config n)
    pure n

  -- The result is the task manager, which is the log.
  unfoldable pub new_full : Configuration → Run S (Unit {0})
  unfolding set_up
  new_full config = do set_up config; emit network_started
