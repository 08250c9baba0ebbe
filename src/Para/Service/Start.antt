-- ===== src/Para/Service/Start.antt =====
-- `start_parachain_node`.
use sub0_bangkok_challenges.Common.{
  ℕ, String, Bool, true, false, Option, none, some, Result, ok, err, ◌>>=◌, ◌>>◌, pure, lift, emit,
  when, expect, map_err, if◌then◌else◌,
}
use sub0_bangkok_challenges.Para.Rpc.{create_full}
use sub0_bangkok_challenges.Node.Task.{
  Configuration, ServiceError, application, plain, is_authority,
}
use sub0_bangkok_challenges.Para.Service.Calls.{
  Types, Partial, spawned, lent, offchain_workers, hwbench_printed, hardware_warning,
  network_started, DaRecoveryProfile, collator, full_node, resistant, Sdk,
}
use sub0_bangkok_challenges.Para.Service.Setup.{Run, handle_of, new_partial, start_consensus}

module _ {T : Types} (S : Sdk T) where
  -- What `start_parachain_node` holds once the network is built.
  pub record Node : Type 0 where
    pub partial : Partial T
    pub relay_chain_interface : T.RelayChainInterface
    pub collator_key : Option T.CollatorKey
    pub network : T.Network
    pub system_rpc_tx : T.SystemRpc
    pub controller : T.Controller
    pub starter : T.Starter
    pub sync_service : T.SyncService

  unfoldable pub build_node :
      Configuration
      → Configuration
      → T.CollatorOptions
      → ℕ
      → Option T.HwBench
      → Partial T
      → Run S Node
  build_node config polkadot_config collator_options para_id hwbench p = do
    emit (lent "relay-chain" true)
    (relay_chain_interface, collator_key) ← lift (
        map_err application (
          S.build_relay_chain_interface polkadot_config config p.telemetry_worker_handle
            collator_options hwbench))
    emit (lent "network" false)
    (network, system_rpc_tx, controller, starter, sync_service) ← lift (
        S.build_network (record {
          parachain_config = config;
          net_config = S.network_configuration config.network;
          client = p.client;
          transaction_pool = p.transaction_pool;
          para_id = para_id;
          relay_chain_interface = relay_chain_interface;
          import_queue = p.import_queue;
          sybil_resistance_level = resistant;
        }))
    pure (record {
      partial = p;
      relay_chain_interface = relay_chain_interface;
      collator_key = collator_key;
      network = network;
      system_rpc_tx = system_rpc_tx;
      controller = controller;
      starter = starter;
      sync_service = sync_service;
    })

  unfoldable pub spawn_offchain_workers : Configuration → Node → Run S (Unit {0})
  spawn_offchain_workers config n = do
    emit (
        offchain_workers (record {
          runtime_api_provider = n.partial.client;
          keystore = some n.partial.keystore;
          offchain_db = n.partial.backend;
          transaction_pool = some n.partial.transaction_pool;
          network_provider = n.network;
          is_validator = is_authority config.role;
          enable_http_requests = false;
        }))
    emit (lent "offchain-workers" false)
    emit (spawned (plain "offchain-workers-runner" (some "offchain-work")))

  -- `create_full(deps).map_err(Into::into)`
  unfoldable pub rpc_builder : Node → Bool → Result ServiceError T.RpcModule
  rpc_builder n deny_unsafe = map_err application (
      create_full S.rpc (record {
        client = n.partial.client;
        pool = n.partial.transaction_pool;
        deny_unsafe = deny_unsafe;
      }))

  unfoldable pub spawn_rpc : Configuration → Node → Run S (Unit {0})
  spawn_rpc config n = do
    emit (lent "rpc" false)
    lift (
        S.spawn_tasks (record {
          rpc_builder = rpc_builder n;
          client = n.partial.client;
          transaction_pool = n.partial.transaction_pool;
          config = config;
          keystore = n.partial.keystore;
          backend = n.partial.backend;
          network = n.network;
          sync_service = n.sync_service;
          system_rpc_tx = n.system_rpc_tx;
          tx_handler_controller = n.controller;
          telemetry = n.partial.telemetry;
        }))

  -- `match check_hardware(..) { Err(err) if validator => warn, _ => {} }`
  unfoldable pub warn_of_hardware : Bool → Result String (Unit {0}) → Run S (Unit {0})
  warn_of_hardware true (err message) = emit (hardware_warning message)
  warn_of_hardware true (ok _) = pure tt
  warn_of_hardware false _ = pure tt

  -- `if let Some(ref mut telemetry) = telemetry`
  unfoldable pub spawn_hwbench_telemetry : Option T.Telemetry → Run S (Unit {0})
  spawn_hwbench_telemetry none = pure tt
  spawn_hwbench_telemetry (some telemetry) = emit (spawned (plain "telemetry_hwbench" none))

  unfoldable pub report_hwbench : Bool → Option T.Telemetry → Option T.HwBench → Run S (Unit {0})
  report_hwbench validator telemetry none = pure tt
  report_hwbench validator telemetry (some hwbench) = do
    emit (hwbench_printed hwbench)
    warn_of_hardware validator (S.check_hardware hwbench)
    spawn_hwbench_telemetry telemetry

  abbrev pub recovery_profile : Bool → DaRecoveryProfile
  recovery_profile validator = if validator then collator else full_node

  unfoldable pub start_relay_tasks : Bool → ℕ → ℕ → Node → T.OverseerHandle → Run S (Unit {0})
  start_relay_tasks validator para_id relay_chain_slot_duration n overseer_handle = do
    emit (lent "relay-chain-tasks" true)
    lift (
        S.start_relay_chain_tasks (record {
          client = n.partial.client;
          announcer = n.sync_service;
          para_id = para_id;
          relay_chain_interface = n.relay_chain_interface;
          da_recovery_profile = recovery_profile validator;
          import_queue = S.queue_service n.partial.import_queue;
          relay_chain_slot_duration_secs = relay_chain_slot_duration;
          recovery_handle = overseer_handle;
          sync_service = n.sync_service;
        }))

  -- The body of `if validator`: the arguments are computed first, and may panic.
  unfoldable pub start_collating :
      Configuration → ℕ → ℕ → Node → T.OverseerHandle → Run S (Unit {0})
  start_collating config para_id relay_chain_slot_duration n overseer_handle = do
    key ← expect n.collator_key "Command line arguments do not allow this. qed"
    start_consensus S n.partial.client n.partial.backend n.partial.block_import
        config.prometheus_registry (handle_of S n.partial.telemetry) n.relay_chain_interface
        n.partial.transaction_pool n.sync_service n.partial.keystore relay_chain_slot_duration
        para_id key overseer_handle n.sync_service

  -- All but the call that starts the network, over the prepared configuration.
  unfoldable pub set_up :
      Configuration → Configuration → T.CollatorOptions → ℕ → Option T.HwBench → Run S T.Client
  set_up config polkadot_config collator_options para_id hwbench = do
    p ← new_partial S config
    n ← build_node config polkadot_config collator_options para_id hwbench p
    let validator = is_authority config.role
    when config.offchain_worker_enabled (spawn_offchain_workers config n)
    spawn_rpc config n
    report_hwbench validator p.telemetry hwbench
    let relay_chain_slot_duration : ℕ = 6
    overseer_handle ← lift (map_err application (S.overseer_handle n.relay_chain_interface))
    start_relay_tasks validator para_id relay_chain_slot_duration n overseer_handle
    when validator (start_collating config para_id relay_chain_slot_duration n overseer_handle)
    pure p.client

  -- The result is the client; the task manager is the log.
  unfoldable pub start_parachain_node :
      Configuration → Configuration → T.CollatorOptions → ℕ → Option T.HwBench → Run S T.Client
  start_parachain_node parachain_config polkadot_config collator_options para_id hwbench = do
    client ←
        set_up (S.prepare_node_config parachain_config) polkadot_config collator_options para_id
          hwbench
    emit network_started
    pure client
