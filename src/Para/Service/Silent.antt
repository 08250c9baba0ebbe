-- ===== src/Para/Service/Silent.antt =====
-- The start and its parts under a projection that drops what they log.
use sub0_bangkok_challenges.Common.{
  ℕ, ◌≡◌, String, Bool, true, false, Option, none, some, [], Result, ok, err,
}
use sub0_bangkok_challenges.Common.Emits.{Emits, silent}
use sub0_bangkok_challenges.Node.Task.{Configuration, Task, Endpoints}
use sub0_bangkok_challenges.Para.Service.{
  Types, Partial, Event, spawned, lent, offchain_workers, OffchainWorkerOptions, Sdk, Node,
  start_telemetry, spawn_telemetry, build_import_queue, new_partial, build_node,
  spawn_offchain_workers, spawn_rpc, spawn_hwbench_telemetry, start_relay_tasks, hwbench_printed,
  hardware_warning, collating, AuraParams, warn_of_hardware, report_hwbench, start_collating,
  start_consensus, set_up,
}

pub record Drops {T : Types} {F : Type 0} (p : Event T → Option F) : Type 0 where
  pub spawned_dropped : (t : Task) → p (spawned t) ≡ none
  pub lent_dropped : (name : String) (essential : Bool) → p (lent name essential) ≡ none
  pub workers_dropped : (o : OffchainWorkerOptions T) → p (offchain_workers o) ≡ none

-- What only an authority, or a node that measured its hardware, does.
pub record DropsDuties {T : Types} {F : Type 0} (p : Event T → Option F) : Type 0 where
  pub warning_dropped : (message : String) → p (hardware_warning message) ≡ none
  pub collating_dropped : (params : AuraParams T) → p (collating params) ≡ none

module _ {T : Types} {F : Type 0} (S : Sdk T) {p : Event T → Option F} (d : Drops p) where
  start_telemetry-silent : (endpoints : Option Endpoints) → Emits p [] (start_telemetry S endpoints)
  unfolding start_telemetry
  start_telemetry-silent none = search silent
  start_telemetry-silent (some endpoints) = search silent

  spawn_telemetry-silent :
      (started : Option (T.Worker × T.Telemetry)) → Emits p [] (spawn_telemetry S started)
  unfolding spawn_telemetry
  spawn_telemetry-silent none = search silent
  spawn_telemetry-silent (some started) = search (silent, d.spawned_dropped)

  build_import_queue-silent :
      (client : T.Client) (import : T.BlockImport) (config : Configuration)
      (handle : Option T.Handle)
      → Emits p [] (build_import_queue S client import config handle)
  unfolding build_import_queue
  build_import_queue-silent client import config handle = search (silent, d.lent_dropped)

  pub new_partial-silent : (config : Configuration) → Emits p [] (new_partial S config)
  unfolding new_partial
  new_partial-silent config =
      search
        (
          silent, d.lent_dropped, start_telemetry-silent, spawn_telemetry-silent,
          build_import_queue-silent,
        )
        depth 20

  pub build_node-silent :
      (config polkadot_config : Configuration) (options : T.CollatorOptions) (para_id : ℕ)
      (hwbench : Option T.HwBench) (q : Partial T)
      → Emits p [] (build_node S config polkadot_config options para_id hwbench q)
  unfolding build_node
  build_node-silent config polkadot_config options para_id hwbench q =
      search (silent, d.lent_dropped) depth 16

  pub spawn_offchain_workers-silent :
      (config : Configuration) (n : Node S) → Emits p [] (spawn_offchain_workers S config n)
  unfolding spawn_offchain_workers
  spawn_offchain_workers-silent config n =
      search (silent, d.lent_dropped, d.spawned_dropped, d.workers_dropped) depth 12

  pub spawn_rpc-silent : (config : Configuration) (n : Node S) → Emits p [] (spawn_rpc S config n)
  unfolding spawn_rpc
  spawn_rpc-silent config n = search (silent, d.lent_dropped) depth 12

  pub spawn_hwbench_telemetry-silent :
      (telemetry : Option T.Telemetry) → Emits p [] (spawn_hwbench_telemetry S telemetry)
  unfolding spawn_hwbench_telemetry
  spawn_hwbench_telemetry-silent none = search silent
  spawn_hwbench_telemetry-silent (some telemetry) = search (silent, d.spawned_dropped)

  pub start_relay_tasks-silent :
      (validator : Bool) (para_id duration : ℕ) (n : Node S) (overseer : T.OverseerHandle)
      → Emits p [] (start_relay_tasks S validator para_id duration n overseer)
  unfolding start_relay_tasks
  start_relay_tasks-silent validator para_id duration n overseer =
      search (silent, d.lent_dropped) depth 12

  module _ (u : DropsDuties p) where
    pub warn_of_hardware-silent :
        (validator : Bool) (result : Result String (Unit {0}))
        → Emits p [] (warn_of_hardware S validator result)
    unfolding warn_of_hardware
    warn_of_hardware-silent true (err message) = search (silent, u.warning_dropped)
    warn_of_hardware-silent true (ok _) = search silent
    warn_of_hardware-silent false result = search silent

    pub start_collating-silent :
        (config : Configuration) (para_id duration : ℕ) (n : Node S) (overseer : T.OverseerHandle)
        → Emits p [] (start_collating S config para_id duration n overseer)
    unfolding start_collating start_consensus
    start_collating-silent config para_id duration n overseer =
        search (silent, d.lent_dropped, d.spawned_dropped, u.collating_dropped) depth 16

    module _ (hwbench_dropped : (hwbench : T.HwBench) → p (hwbench_printed hwbench) ≡ none) where
      report_hwbench-silent :
          (validator : Bool) (telemetry : Option T.Telemetry) (hwbench : Option T.HwBench)
          → Emits p [] (report_hwbench S validator telemetry hwbench)
      unfolding report_hwbench
      report_hwbench-silent validator telemetry none = search silent
      report_hwbench-silent validator telemetry (some hwbench) =
          search (silent, hwbench_dropped, warn_of_hardware-silent, spawn_hwbench_telemetry-silent)
            depth 8

      pub set_up-silent :
          (config polkadot_config : Configuration) (options : T.CollatorOptions) (para_id : ℕ)
          (hwbench : Option T.HwBench)
          → Emits p [] (set_up S config polkadot_config options para_id hwbench)
      unfolding set_up
      set_up-silent config polkadot_config options para_id hwbench =
          search
            (
              silent, new_partial-silent, build_node-silent, spawn_offchain_workers-silent,
              spawn_rpc-silent, start_relay_tasks-silent, report_hwbench-silent,
              start_collating-silent,
            )
            depth 24
