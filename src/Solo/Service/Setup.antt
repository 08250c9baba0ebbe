-- ===== src/Solo/Service/Setup.antt =====
-- `new_partial`: what every subcommand and the full node need.
use mathlib.Core.Option
use sub0_bangkok_challenges.Common.{
  ℕ, true, Option, none, some, Act, ◌>>=◌, ◌>>◌, pure, lift, emit, result_map,
}
use sub0_bangkok_challenges.Node.Task.{
  Configuration, ServiceError, Endpoints, plain, is_authority, active_endpoints,
}
use sub0_bangkok_challenges.Solo.Service.Calls.{
  Types, Partial, Inherents, ImportQueueParams, Event, spawned, lent, importing, Sdk,
}

-- The minimum period of blocks on which justifications will be imported and generated.
abbrev pub grandpa_justification_period : ℕ
grandpa_justification_period = 512

module _ {T : Types} (S : Sdk T) where
  abbrev pub Run : Type 0 → Type 0
  Run A = Act ServiceError (Event T) A

  -- The worker and the telemetry, if there are endpoints (`.transpose()?` included).
  unfoldable pub start_telemetry : Option Endpoints → Run (Option (T.Worker × T.Telemetry))
  start_telemetry none = pure none
  start_telemetry (some endpoints) = do
    worker ← lift (S.worker_new 16)
    pure (some (worker, S.new_telemetry worker endpoints))

  -- `telemetry.map(|(worker, telemetry)| { spawn; telemetry })`
  unfoldable pub spawn_telemetry : Option (T.Worker × T.Telemetry) → Run (Option T.Telemetry)
  spawn_telemetry none = pure none
  spawn_telemetry (some (worker, telemetry)) = do
    emit (spawned (plain "telemetry" none))
    pure (some telemetry)

  abbrev pub handle_of : Option T.Telemetry → Option T.Handle
  handle_of = Option.map S.handle

  -- The inherents that the import queue checks a block with: the slot duration is read at its
  -- parent.
  unfoldable pub import_inherents : T.Client → T.Hash → Inherents T
  import_inherents client parent_hash timestamp =
      result_map (λ slot_duration. (S.slot_from_timestamp timestamp slot_duration, timestamp))
        (S.slot_duration_at client parent_hash)

  unfoldable pub import_queue_params :
      Configuration → T.Client → T.BlockImport → Option T.Telemetry → ImportQueueParams T
  import_queue_params config client block_import telemetry = record {
    block_import = block_import;
    justification_import = some block_import;
    client = client;
    create_inherent_data_providers = import_inherents client;
    registry = config.prometheus_registry;
    telemetry = handle_of telemetry;
  }

  unfoldable pub new_partial : Configuration → Run (Partial T)
  unfolding active_endpoints start_telemetry spawn_telemetry
  new_partial config = do
    started ← start_telemetry (active_endpoints config.telemetry_endpoints)
    let executor = S.new_wasm_executor config
    (client, backend, keystore) ←
        lift (S.new_full_parts config (handle_of (Option.map (λ (_, t). t) started)) executor)
    telemetry ← spawn_telemetry started
    let select_chain = S.longest_chain backend
    emit (lent "transaction-pool" true)
    let pool =
        S.new_pool config.transaction_pool (is_authority config.role) config.prometheus_registry
          client
    (block_import, link) ← lift (
        S.grandpa_block_import client grandpa_justification_period select_chain
          (handle_of telemetry))
    emit (lent "import-queue" true)
    let params = import_queue_params config client block_import telemetry
    import_queue ← lift (S.new_import_queue params)
    emit (importing params)
    pure (record {
      client = client;
      backend = backend;
      import_queue = import_queue;
      keystore = keystore;
      select_chain = select_chain;
      transaction_pool = pool;
      block_import = block_import;
      grandpa_link = link;
      telemetry = telemetry;
    })
