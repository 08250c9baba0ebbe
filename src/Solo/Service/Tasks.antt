-- ===== src/Solo/Service/Tasks.antt =====
-- Which tasks the node spawns, for every setting and every outcome of the SDK's calls.
use sub0_bangkok_challenges.Common.{
  ◌≡◌, refl, subst, true, not, Option, none, some, List, [], ◌∷◌, ◌++◌, arith, done, run, opt,
}
use sub0_bangkok_challenges.Common.Emits.{
  Emits, Emits-bind, Emits-bind_ok, Emits-then, Emits-after, Emits-pure, Emits-lift, Emits-drop,
  Emits-keep, Emits-when, silent,
}
use sub0_bangkok_challenges.Node.Task.{
  Configuration, Task, Endpoints, plain, is_authority, active_endpoints,
}
use sub0_bangkok_challenges.Solo.Service.{
  Types, Event, spawned, Sdk, Partial, Node, start_telemetry, spawn_telemetry, new_partial,
  build_network, spawn_offchain_workers, spawn_rpc, start_authoring, start_voter, new_full,
}

abbrev pub telemetry_task : Task
telemetry_task = plain "telemetry" none

abbrev pub task_of : {T : Types} → Event T → Option Task
task_of (spawned t) = some t
task_of _ = none

abbrev pub offchain_task : Task
offchain_task = plain "offchain-workers-runner" (some "offchain-worker")

abbrev pub aura_task : Task
aura_task = record {
  name = "aura";
  group = some "block-authoring";
  essential = true;
  blocking = true;
}

abbrev pub voter_task : Task
voter_task = record { name = "grandpa-voter"; group = none; essential = true; blocking = true }

module _ {A : Type 0} where
  -- The task that serves the telemetry, if there is any.
  abbrev telemetry_tasks : Option A → List Task
  telemetry_tasks none = []
  telemetry_tasks (some _) = telemetry_task ∷ []

module _ {T : Types} (S : Sdk T) where
  start_telemetry-tasks :
      (endpoints : Option Endpoints) → Emits task_of [] (start_telemetry S endpoints)
  unfolding start_telemetry
  start_telemetry-tasks none = Emits-pure none
  start_telemetry-tasks (some endpoints) = Emits-after (Emits-lift _) (λ worker. Emits-pure _)

  start_telemetry-ok :
      (endpoints : Option Endpoints) (started : Option (T.Worker × T.Telemetry))
      → (start_telemetry S endpoints).0 ≡ done started
      → telemetry_tasks started ≡ telemetry_tasks endpoints
  unfolding start_telemetry run
  start_telemetry-ok none started e = ground arith
  start_telemetry-ok (some endpoints) started e = ground arith

  spawn_telemetry-tasks :
      (started : Option (T.Worker × T.Telemetry))
      → Emits task_of (telemetry_tasks started) (spawn_telemetry S started)
  unfolding spawn_telemetry
  spawn_telemetry-tasks none = Emits-pure none
  spawn_telemetry-tasks (some (worker, telemetry)) =
      Emits-then (Emits-keep _ refl) (λ _. Emits-pure _)

  new_partial-tasks :
      (config : Configuration)
      → Emits task_of
          (telemetry_tasks (active_endpoints config.telemetry_endpoints))
          (new_partial S config)
  unfolding new_partial
  new_partial-tasks config =
      let endpoints = active_endpoints config.telemetry_endpoints in
      Emits-bind_ok [] _ _ (start_telemetry-tasks endpoints) λ started e.
        Emits-after (Emits-lift _) λ parts.
          Emits-then
            (subst (λ fs. Emits task_of fs (spawn_telemetry S started))
              (start_telemetry-ok endpoints started e) (spawn_telemetry-tasks started))
            λ telemetry. Emits-after (Emits-drop _ refl) λ _. Emits-after (Emits-lift _) λ grandpa.
              Emits-after (Emits-drop _ refl) λ _.
                Emits-after (Emits-lift _)
                  λ queue. Emits-after (Emits-drop _ refl) (λ _. Emits-pure _)

  build_network-tasks :
      (config : Configuration) (p : Partial T) → Emits task_of [] (build_network S config p)
  unfolding build_network
  build_network-tasks config p = search silent depth 12

  spawn_rpc-tasks : (config : Configuration) (n : Node S) → Emits task_of [] (spawn_rpc S config n)
  unfolding spawn_rpc
  spawn_rpc-tasks config n = search silent depth 12

  spawn_offchain_workers-tasks :
      (config : Configuration) (n : Node S)
      → Emits task_of (offchain_task ∷ []) (spawn_offchain_workers S config n)
  unfolding spawn_offchain_workers
  spawn_offchain_workers-tasks config n =
      Emits-after (Emits-drop _ refl) λ _. Emits-after (Emits-drop _ refl) (λ _. Emits-keep _ refl)

  start_authoring-tasks :
      (config : Configuration) (n : Node S)
      → Emits task_of (aura_task ∷ []) (start_authoring S config n)
  unfolding start_authoring
  start_authoring-tasks config n = Emits-after (Emits-drop _ refl) λ _.
      Emits-after (Emits-lift _) λ _.
        Emits-after (Emits-lift _) λ _. Emits-after (Emits-drop _ refl) (λ _. Emits-keep _ refl)

  start_voter-tasks :
      (config : Configuration) (n : Node S)
      → Emits task_of (voter_task ∷ []) (start_voter S config n)
  unfolding start_voter
  start_voter-tasks config n =
      Emits-after (Emits-lift _) λ _. Emits-after (Emits-drop _ refl) (λ _. Emits-keep _ refl)

-- What a node with these settings runs.
unfoldable pub expected_tasks : Configuration → List Task
expected_tasks config =
    telemetry_tasks (active_endpoints config.telemetry_endpoints)
    ++ (opt config.offchain_worker_enabled offchain_task
        ++ (opt (is_authority config.role) aura_task
            ++ opt (not config.disable_grandpa) voter_task))

module _ {T : Types} (S : Sdk T) where
  -- If the node starts, it has spawned exactly the expected tasks, in their order. If it does not,
  -- it has spawned a beginning of that list.
  pub new_full-tasks :
      (config : Configuration) → Emits task_of (expected_tasks config) (new_full S config)
  unfolding new_full expected_tasks
  new_full-tasks config =
      Emits-then
        (Emits-bind (new_partial-tasks S config) λ p.
          Emits-after (build_network-tasks S config p) λ n.
            Emits-bind (Emits-when _ _ (λ _. spawn_offchain_workers-tasks S config n)) λ _.
              Emits-after (spawn_rpc-tasks S config n) λ _.
                Emits-bind (Emits-when _ _ (λ _. start_authoring-tasks S config n)) λ _.
                  Emits-then (Emits-when _ _ (λ _. start_voter-tasks S config n))
                    (λ _. Emits-pure n))
        (λ _. Emits-drop _ refl)
