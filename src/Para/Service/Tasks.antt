-- ===== src/Para/Service/Tasks.antt =====
-- Which tasks the node spawns, for every setting and every result of the SDK's calls.
use sub0_bangkok_challenges.Common.{
  ℕ, ◌≡◌, refl, ◌∙◌, subst, Bool, true, false, ◌&&◌, Option, none, some, List, [], ◌∷◌, ◌++◌,
  String, Result, ok, err, opt, is_some,
}
use sub0_bangkok_challenges.Common.Emits.{
  Emits, Emits-bind, Emits-bind_ok, Emits-then, Emits-after, Emits-pure, Emits-lift, Emits-drop,
  Emits-keep, Emits-when, silent,
}
use sub0_bangkok_challenges.Common.Returns.{Returns, Returns-bind, Returns-bind_ok, Returns-pure}
use sub0_bangkok_challenges.Node.Task.{
  Configuration, Task, Endpoints, plain, is_authority, active_endpoints,
}
use sub0_bangkok_challenges.Para.Service.{
  Types, Partial, Event, spawned, Sdk, Node, start_telemetry, spawn_telemetry, build_import_queue,
  new_partial, build_node, spawn_offchain_workers, spawn_rpc, warn_of_hardware,
  spawn_hwbench_telemetry, report_hwbench, start_relay_tasks, start_collating, start_consensus,
  aura_task, set_up, start_parachain_node,
}

abbrev pub task_of : {T : Types} → Event T → Option Task
task_of (spawned t) = some t
task_of _ = none

abbrev pub telemetry_task : Task
telemetry_task = plain "telemetry" none

abbrev pub offchain_task : Task
offchain_task = plain "offchain-workers-runner" (some "offchain-work")

abbrev pub hwbench_task : Task
hwbench_task = plain "telemetry_hwbench" none

module _ {T : Types} (S : Sdk T) where
  start_telemetry-tasks :
      (endpoints : Option Endpoints) → Emits task_of [] (start_telemetry S endpoints)
  unfolding start_telemetry
  start_telemetry-tasks none = search silent
  start_telemetry-tasks (some endpoints) = search silent

  start_telemetry-Returns :
      (endpoints : Option Endpoints)
      → Returns (λ started. is_some started ≡ is_some endpoints) (start_telemetry S endpoints)
  unfolding start_telemetry
  start_telemetry-Returns none = Returns-pure _ _ refl
  start_telemetry-Returns (some endpoints) = Returns-bind _ _ (λ worker. Returns-pure _ _ refl)

  spawn_telemetry-tasks :
      (started : Option (T.Worker × T.Telemetry))
      → Emits task_of (opt (is_some started) telemetry_task) (spawn_telemetry S started)
  unfolding spawn_telemetry
  spawn_telemetry-tasks none = Emits-pure none
  spawn_telemetry-tasks (some started) = Emits-then (Emits-keep _ refl) (λ _. Emits-pure _)

  spawn_telemetry-Returns :
      (started : Option (T.Worker × T.Telemetry))
      → Returns (λ telemetry. is_some telemetry ≡ is_some started) (spawn_telemetry S started)
  unfolding spawn_telemetry
  spawn_telemetry-Returns none = Returns-pure _ _ refl
  spawn_telemetry-Returns (some started) = Returns-bind _ _ (λ _. Returns-pure _ _ refl)

  build_import_queue-tasks :
      (client : T.Client) (import : T.BlockImport) (config : Configuration)
      (handle : Option T.Handle)
      → Emits task_of [] (build_import_queue S client import config handle)
  unfolding build_import_queue
  build_import_queue-tasks client import config handle = search silent

  module _ (config : Configuration) where
    -- Whether there are telemetry endpoints.
    abbrev reports : Bool
    reports = is_some (active_endpoints config.telemetry_endpoints)

    new_partial-tasks : Emits task_of (opt reports telemetry_task) (new_partial S config)
    unfolding new_partial
    new_partial-tasks =
        let endpoints = active_endpoints config.telemetry_endpoints in
        Emits-bind_ok [] _ _ (start_telemetry-tasks endpoints) λ started e.
          Emits-after (Emits-lift _) λ parts.
            Emits-then
              (subst (λ b. Emits task_of (opt b telemetry_task) (spawn_telemetry S started))
                ((start_telemetry-Returns endpoints).holds started e)
                (spawn_telemetry-tasks started))
              λ telemetry.
                Emits-after (Emits-drop _ refl)
                  λ _. Emits-after (build_import_queue-tasks _ _ _ _) (λ queue. Emits-pure _)

    new_partial-Returns : Returns (λ p. is_some p.telemetry ≡ reports) (new_partial S config)
    unfolding new_partial
    new_partial-Returns = Returns-bind_ok _ _ λ started e. Returns-bind _ _ λ parts.
        Returns-bind_ok _ _ λ telemetry e'. Returns-bind _ _ λ _. Returns-bind _ _ λ queue.
          Returns-pure _ _ (
            (spawn_telemetry-Returns started).holds telemetry e'
            ∙ (start_telemetry-Returns _).holds started e)

  build_node-tasks :
      (config polkadot_config : Configuration) (options : T.CollatorOptions) (para_id : ℕ)
      (hwbench : Option T.HwBench) (p : Partial T)
      → Emits task_of [] (build_node S config polkadot_config options para_id hwbench p)
  unfolding build_node
  build_node-tasks config polkadot_config options para_id hwbench p = search silent depth 16

  module _ (config : Configuration) (n : Node S) where
    spawn_offchain_workers-tasks :
        Emits task_of (offchain_task ∷ []) (spawn_offchain_workers S config n)
    unfolding spawn_offchain_workers
    spawn_offchain_workers-tasks =
        Emits-after (Emits-drop _ refl)
          λ _. Emits-after (Emits-drop _ refl) (λ _. Emits-keep _ refl)

    spawn_rpc-tasks : Emits task_of [] (spawn_rpc S config n)
    unfolding spawn_rpc
    spawn_rpc-tasks = search silent depth 12

    start_relay_tasks-tasks :
        (validator : Bool) (para_id duration : ℕ) (overseer : T.OverseerHandle)
        → Emits task_of [] (start_relay_tasks S validator para_id duration n overseer)
    unfolding start_relay_tasks
    start_relay_tasks-tasks validator para_id duration overseer = search silent depth 12

    start_collating-tasks :
        (para_id duration : ℕ) (overseer : T.OverseerHandle)
        → Emits task_of (aura_task S ∷ []) (start_collating S config para_id duration n overseer)
    unfolding start_collating start_consensus
    start_collating-tasks para_id duration overseer = Emits-after (search silent) λ key.
        Emits-after (Emits-drop _ refl) λ _. Emits-after (Emits-drop _ refl) λ _.
          Emits-after (Emits-drop _ refl) λ _. Emits-then (Emits-keep _ refl) (λ _. Emits-pure tt)

  warn_of_hardware-tasks :
      (validator : Bool) (result : Result String (Unit {0}))
      → Emits task_of [] (warn_of_hardware S validator result)
  unfolding warn_of_hardware
  warn_of_hardware-tasks true (err message) = search silent
  warn_of_hardware-tasks true (ok _) = search silent
  warn_of_hardware-tasks false result = search silent

  spawn_hwbench_telemetry-tasks :
      (telemetry : Option T.Telemetry)
      → Emits task_of (opt (is_some telemetry) hwbench_task) (spawn_hwbench_telemetry S telemetry)
  unfolding spawn_hwbench_telemetry
  spawn_hwbench_telemetry-tasks none = Emits-pure tt
  spawn_hwbench_telemetry-tasks (some telemetry) = Emits-keep _ refl

  report_hwbench-tasks :
      (validator : Bool) (telemetry : Option T.Telemetry) (hwbench : Option T.HwBench)
      → Emits task_of
          (opt (is_some hwbench && is_some telemetry) hwbench_task)
          (report_hwbench S validator telemetry hwbench)
  unfolding report_hwbench
  report_hwbench-tasks validator telemetry none = Emits-pure tt
  report_hwbench-tasks validator telemetry (some hwbench) = Emits-after (Emits-drop _ refl) λ _.
      Emits-after (warn_of_hardware-tasks validator _)
        (λ _. spawn_hwbench_telemetry-tasks telemetry)

  -- What a node with these settings runs, with a hardware benchmark or without.
  unfoldable pub expected_tasks : Configuration → Option T.HwBench → List Task
  expected_tasks config hwbench =
      let reports = is_some (active_endpoints config.telemetry_endpoints) in
      opt reports telemetry_task
      ++ (opt config.offchain_worker_enabled offchain_task
          ++ (opt (is_some hwbench && reports) hwbench_task
              ++ opt (is_authority config.role) (aura_task S)))

  set_up-tasks :
      (config polkadot_config : Configuration) (options : T.CollatorOptions) (para_id : ℕ)
      (hwbench : Option T.HwBench)
      → Emits task_of
          (expected_tasks config hwbench)
          (set_up S config polkadot_config options para_id hwbench)
  unfolding set_up expected_tasks
  set_up-tasks config polkadot_config options para_id hwbench =
      Emits-bind_ok _ _ _ (new_partial-tasks config) λ p e.
        Emits-after (build_node-tasks config polkadot_config options para_id hwbench p) λ n.
          Emits-bind (Emits-when _ _ (λ _. spawn_offchain_workers-tasks config n)) λ _.
            Emits-after (spawn_rpc-tasks config n) λ _.
              Emits-bind
                (subst
                  (λ b.
                    Emits task_of (opt (is_some hwbench && b) hwbench_task)
                      (report_hwbench S (is_authority config.role) p.telemetry hwbench))
                  ((new_partial-Returns config).holds p e)
                  (report_hwbench-tasks _ p.telemetry hwbench))
                λ _. Emits-after (Emits-lift _) λ overseer.
                  Emits-after (start_relay_tasks-tasks config n _ _ _ _) λ _.
                    Emits-then (Emits-when _ _ (λ _. start_collating-tasks config n _ _ _))
                      (λ _. Emits-pure _)

  -- If the node starts, it has spawned exactly the expected tasks, in their order. If it does not,
  -- it has spawned a beginning of that list.
  pub start_parachain_node-tasks :
      (config polkadot_config : Configuration) (options : T.CollatorOptions) (para_id : ℕ)
      (hwbench : Option T.HwBench)
      → Emits task_of
          (expected_tasks (S.prepare_node_config config) hwbench)
          (start_parachain_node S config polkadot_config options para_id hwbench)
  unfolding start_parachain_node
  start_parachain_node-tasks config polkadot_config options para_id hwbench =
      Emits-then
        (set_up-tasks (S.prepare_node_config config) polkadot_config options para_id hwbench)
        (λ client. Emits-after (Emits-drop _ refl) (λ _. Emits-pure client))
