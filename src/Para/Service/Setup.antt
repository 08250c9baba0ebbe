-- ===== src/Para/Service/Setup.antt =====
-- `new_partial`, `build_import_queue` and `start_consensus`.
use mathlib.Core.Option
use sub0_bangkok_challenges.Common.{
  ℕ, String, true, false, Option, none, some, ok, err, Act, ◌>>=◌, ◌>>◌, pure, lift, emit,
}
use sub0_bangkok_challenges.Node.Task.{
  Configuration, ServiceError, Endpoints, Task, plain, is_authority, active_endpoints,
}
use sub0_bangkok_challenges.Para.Service.Calls.{
  Types, Partial, Event, spawned, lent, collating, HeapAllocStrategy, default_strategy, static, Sdk,
}

module _ {T : Types} (S : Sdk T) where
  abbrev pub Run : Type 0 → Type 0
  Run A = Act ServiceError (Event T) A

  -- The worker and the telemetry, if there are endpoints (`.transpose()?` included).
  unfoldable pub start_telemetry : Option Endpoints → Run (Option (T.Worker × T.Telemetry))
  start_telemetry none = pure none
  start_telemetry (some endpoints) = do
    worker ← lift (S.worker_new 16)
    pure (some (worker, S.new_telemetry worker endpoints))

  unfoldable pub spawn_telemetry : Option (T.Worker × T.Telemetry) → Run (Option T.Telemetry)
  spawn_telemetry none = pure none
  spawn_telemetry (some (worker, telemetry)) = do
    emit (spawned (plain "telemetry" none))
    pure (some telemetry)

  abbrev pub handle_of : Option T.Telemetry → Option T.Handle
  handle_of = Option.map S.handle

  -- `map_or(DEFAULT_HEAP_ALLOC_STRATEGY, ..)`
  unfoldable pub heap_strategy : Option ℕ → HeapAllocStrategy
  heap_strategy none = default_strategy
  heap_strategy (some h) = static h

  unfoldable pub build_import_queue :
      T.Client → T.BlockImport → Configuration → Option T.Handle → Run T.ImportQueue
  build_import_queue client block_import config telemetry = do
    emit (lent "import-queue" true)
    pure (
        S.fully_verifying_import_queue (record {
          client = client;
          block_import = block_import;
          create_inherent_data_providers = λ timestamp. timestamp;
          registry = config.prometheus_registry;
          telemetry = telemetry;
        }))

  unfoldable pub new_partial : Configuration → Run (Partial T)
  new_partial config = do
    started ← start_telemetry (active_endpoints config.telemetry_endpoints)
    let heap_pages = heap_strategy config.default_heap_pages
    let executor = S.build_executor (record {
      execution_method = config.wasm_method;
      onchain_heap_alloc_strategy = heap_pages;
      offchain_heap_alloc_strategy = heap_pages;
      max_runtime_instances = config.max_runtime_instances;
      runtime_cache_size = config.runtime_cache_size;
    })
    (client, backend, keystore) ← lift (
        S.new_full_parts_record_import config (handle_of (Option.map (λ (_, t). t) started))
          executor true)
    telemetry ← spawn_telemetry started
    emit (lent "transaction-pool" true)
    let pool =
        S.new_pool config.transaction_pool (is_authority config.role) config.prometheus_registry
          client
    let block_import = S.new_block_import client backend
    import_queue ← build_import_queue client block_import config (handle_of telemetry)
    pure (record {
      client = client;
      backend = backend;
      import_queue = import_queue;
      keystore = keystore;
      transaction_pool = pool;
      block_import = block_import;
      telemetry = telemetry;
      telemetry_worker_handle = Option.map (λ (worker, _). S.worker_handle worker) started;
    })

  -- `client.code_at(block_hash).ok().map(|c| ValidationCode::from(c).hash())`
  unfoldable pub code_hash_provider : T.Client → T.Hash → Option T.CodeHash
  code_hash_provider client block_hash = elim (S.code_at client block_hash) [
    | ok code ↦ some (S.code_hash code)
    | err _ ↦ none
  ]

  abbrev pub aura_task : Task
  aura_task = record { name = "aura"; group = none; essential = true; blocking = false }

  unfoldable pub start_consensus :
      T.Client
      → T.Backend
      → T.BlockImport
      → Option String
      → Option T.Handle
      → T.RelayChainInterface
      → T.Pool
      → T.SyncService
      → T.Keystore
      → ℕ
      → ℕ
      → T.CollatorKey
      → T.OverseerHandle
      → T.SyncService
      → Run (Unit {0})
  start_consensus client backend block_import prometheus_registry telemetry relay_chain_interface
        transaction_pool sync_oracle keystore relay_chain_slot_duration para_id collator_key
        overseer_handle announcer =
      do
        emit (lent "proposer" false)
        let proposer = S.proposer client transaction_pool prometheus_registry telemetry
        emit (lent "collator-service" false)
        emit (
            collating (record {
              block_import = block_import;
              para_client = client;
              para_backend = backend;
              relay_client = relay_chain_interface;
              code_hash_provider = code_hash_provider client;
              sync_oracle = sync_oracle;
              keystore = keystore;
              collator_key = collator_key;
              para_id = para_id;
              overseer_handle = overseer_handle;
              relay_chain_slot_duration_secs = relay_chain_slot_duration;
              proposer = proposer;
              announcer = announcer;
              authoring_duration_millis = 2000;
              reinitialize = false;
            }))
        emit (spawned aura_task)
        pure tt
