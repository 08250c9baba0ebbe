-- ===== src/Para/Service/Success.antt =====
-- When `start_parachain_node` starts the node.
use sub0_bangkok_challenges.Common.{
  ◌≡◌, ◌≢◌, ℕ, String, Bool, true, false, Option, none, some, Result, ok, err,
}
use sub0_bangkok_challenges.Common.Completes.{
  Completes, IsOk, IsOk-map_err, Completes-pure, Completes-expect, Completes-when, Completes-bind,
  Completes-bind_done, success,
}
use sub0_bangkok_challenges.Node.Task.{Configuration, Endpoints, is_authority}
use sub0_bangkok_challenges.Para.Service.{
  Types, Sdk, Partial, Node, BuildNetworkParams, SpawnTasksParams, RelayChainTasksParams,
  start_telemetry, spawn_telemetry, build_import_queue, new_partial, build_node,
  spawn_offchain_workers, spawn_rpc, warn_of_hardware, spawn_hwbench_telemetry, report_hwbench,
  start_relay_tasks, start_consensus, start_collating, set_up, start_parachain_node,
}
use sub0_bangkok_challenges.Para.Service.Calm.{GivesKey, build_node-key}

-- No call of the SDK fails.
pub record Works {T : Types} (S : Sdk T) : Type 0 where
  pub worker : (buffer : ℕ) → IsOk (S.worker_new buffer)
  pub parts :
      (config : Configuration) (handle : Option T.Handle) (executor : T.Executor)
      (record_import : Bool)
      → IsOk (S.new_full_parts_record_import config handle executor record_import)
  pub relay :
      (polkadot_config config : Configuration) (worker : Option T.WorkerHandle)
      (options : T.CollatorOptions) (hwbench : Option T.HwBench)
      → IsOk (S.build_relay_chain_interface polkadot_config config worker options hwbench)
  pub network : (params : BuildNetworkParams T) → IsOk (S.build_network params)
  pub rpc : (params : SpawnTasksParams T) → IsOk (S.spawn_tasks params)
  pub overseer : (interface : T.RelayChainInterface) → IsOk (S.overseer_handle interface)
  pub tasks : (params : RelayChainTasksParams T) → IsOk (S.start_relay_chain_tasks params)

module _ {T : Types} (S : Sdk T) (w : Works S) where
  start_telemetry-works : (endpoints : Option Endpoints) → Completes (start_telemetry S endpoints)
  unfolding start_telemetry
  start_telemetry-works none = search success
  start_telemetry-works (some endpoints) = search (success, w.worker)

  spawn_telemetry-works :
      (started : Option (T.Worker × T.Telemetry)) → Completes (spawn_telemetry S started)
  unfolding spawn_telemetry
  spawn_telemetry-works none = search success
  spawn_telemetry-works (some started) = search success

  pub new_partial-works : (config : Configuration) → Completes (new_partial S config)
  unfolding new_partial build_import_queue
  new_partial-works config =
      search (success, start_telemetry-works, spawn_telemetry-works, w.parts) depth 24

  build_node-works :
      (config polkadot_config : Configuration) (options : T.CollatorOptions) (para_id : ℕ)
      (hwbench : Option T.HwBench) (p : Partial T)
      → Completes (build_node S config polkadot_config options para_id hwbench p)
  unfolding build_node
  build_node-works config polkadot_config options para_id hwbench p =
      search (success, IsOk-map_err, w.relay, w.network) depth 16

  module _ (config : Configuration) (n : Node S) where
    spawn_offchain_workers-works : Completes (spawn_offchain_workers S config n)
    unfolding spawn_offchain_workers
    spawn_offchain_workers-works = search success depth 12

    spawn_rpc-works : Completes (spawn_rpc S config n)
    unfolding spawn_rpc
    spawn_rpc-works = search (success, w.rpc) depth 12

    start_relay_tasks-works :
        (validator : Bool) (para_id duration : ℕ) (overseer : T.OverseerHandle)
        → Completes (start_relay_tasks S validator para_id duration n overseer)
    unfolding start_relay_tasks
    start_relay_tasks-works validator para_id duration overseer = search (success, w.tasks) depth 12

    start_collating-works :
        (para_id duration : ℕ) (overseer : T.OverseerHandle)
        → n.collator_key ≢ none
        → Completes (start_collating S config para_id duration n overseer)
    unfolding start_collating start_consensus
    start_collating-works para_id duration overseer h =
        Completes-bind (Completes-expect _ _ h) (λ key. search success depth 16)

  warn_of_hardware-works :
      (validator : Bool) (result : Result String (Unit {0}))
      → Completes (warn_of_hardware S validator result)
  unfolding warn_of_hardware
  warn_of_hardware-works true (err message) = search success
  warn_of_hardware-works true (ok _) = search success
  warn_of_hardware-works false result = search success

  spawn_hwbench_telemetry-works :
      (telemetry : Option T.Telemetry) → Completes (spawn_hwbench_telemetry S telemetry)
  unfolding spawn_hwbench_telemetry
  spawn_hwbench_telemetry-works none = search success
  spawn_hwbench_telemetry-works (some telemetry) = search success

  report_hwbench-works :
      (validator : Bool) (telemetry : Option T.Telemetry) (hwbench : Option T.HwBench)
      → Completes (report_hwbench S validator telemetry hwbench)
  unfolding report_hwbench
  report_hwbench-works validator telemetry none = search success
  report_hwbench-works validator telemetry (some hwbench) =
      search (success, warn_of_hardware-works, spawn_hwbench_telemetry-works) depth 8

  set_up-works :
      (config polkadot_config : Configuration) (options : T.CollatorOptions) (para_id : ℕ)
      (hwbench : Option T.HwBench)
      → (is_authority config.role ≡ true → GivesKey S config polkadot_config options hwbench)
      → Completes (set_up S config polkadot_config options para_id hwbench)
  unfolding set_up
  set_up-works config polkadot_config options para_id hwbench h =
      Completes-bind (new_partial-works config) λ p.
        Completes-bind_done _ (build_node-works config polkadot_config options para_id hwbench p)
          λ n e.
            Completes-bind (Completes-when _ _ (λ _. spawn_offchain_workers-works config n)) λ _.
              Completes-bind (spawn_rpc-works config n) λ _.
                Completes-bind (report_hwbench-works _ _ _) λ _.
                  Completes-bind (search (success, IsOk-map_err, w.overseer)) λ overseer.
                    Completes-bind (start_relay_tasks-works config n _ _ _ _) λ _.
                      Completes-bind
                        (Completes-when _ _ λ b. start_collating-works config n _ _ _ (
                          (build_node-key S config polkadot_config options para_id hwbench p
                              (h b)).holds
                            n e))
                        (λ _. Completes-pure p.client)

  -- Where no call of the SDK fails, and the relay chain interface of an authority comes with a
  -- collator key, `start_parachain_node` starts the node, for every setting.
  pub start_parachain_node-Completes :
      (config polkadot_config : Configuration) (options : T.CollatorOptions) (para_id : ℕ)
      (hwbench : Option T.HwBench)
      → (is_authority (S.prepare_node_config config).role ≡ true
          → GivesKey S (S.prepare_node_config config) polkadot_config options hwbench)
      → Completes (start_parachain_node S config polkadot_config options para_id hwbench)
  unfolding start_parachain_node
  start_parachain_node-Completes config polkadot_config options para_id hwbench h =
      Completes-bind
        (set_up-works (S.prepare_node_config config) polkadot_config options para_id hwbench h)
        (λ client. search success)
