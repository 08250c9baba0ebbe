-- ===== src/Para/Service/Calm.antt =====
-- When `start_parachain_node` cannot panic.
use sub0_bangkok_challenges.Common.{
  ◌≡◌, ◌≢◌, ℕ, String, Bool, true, false, Option, none, some, Result, ok, err, lift, map_err, done,
}
use sub0_bangkok_challenges.Common.Returns.{Returns, Returns-bind, Returns-bind_ok, Returns-pure}
use sub0_bangkok_challenges.Common.Panics.{
  NeverPanics, NeverPanics-pure, NeverPanics-when, NeverPanics-expect, NeverPanics-bind,
  NeverPanics-bind_done, calm_rules,
}
use sub0_bangkok_challenges.Node.Task.{Configuration, application, Endpoints, is_authority}
use sub0_bangkok_challenges.Para.Service.{
  Types, Sdk, Partial, Node, start_telemetry, spawn_telemetry, build_import_queue, new_partial,
  build_node, spawn_offchain_workers, spawn_rpc, warn_of_hardware, spawn_hwbench_telemetry,
  report_hwbench, start_relay_tasks, start_consensus, start_collating, set_up, start_parachain_node,
}

-- The relay chain interface comes with a collator key, whenever it is built from these settings.
abbrev pub GivesKey :
    {T : Types}
    → Sdk T
    → Configuration
    → Configuration
    → T.CollatorOptions
    → Option T.HwBench
    → Type 0
GivesKey {T} S config polkadot_config options hwbench =
    (worker : Option T.WorkerHandle) (interface : T.RelayChainInterface)
    (key : Option T.CollatorKey)
    → S.build_relay_chain_interface polkadot_config config worker options hwbench
      ≡ ok (interface, key)
    → key ≢ none

lift_done :
    {X A : Type 0} (E : Type 0) (r : Result X A) (a : A) → (lift {E = E} r).0 ≡ done a → r ≡ ok a
unfolding lift
lift_done E (ok b) a e = cc
lift_done E (err x) a e = cc

map_err_ok : {X Y A : Type 0} (f : X → Y) (r : Result X A) (a : A) → map_err f r ≡ ok a → r ≡ ok a
map_err_ok f (ok b) a e = cc
map_err_ok f (err x) a e = cc

module _ {T : Types} (S : Sdk T) where
  start_telemetry-calm : (endpoints : Option Endpoints) → NeverPanics (start_telemetry S endpoints)
  unfolding start_telemetry
  start_telemetry-calm none = search calm_rules
  start_telemetry-calm (some endpoints) = search calm_rules

  spawn_telemetry-calm :
      (started : Option (T.Worker × T.Telemetry)) → NeverPanics (spawn_telemetry S started)
  unfolding spawn_telemetry
  spawn_telemetry-calm none = search calm_rules
  spawn_telemetry-calm (some started) = search calm_rules

  pub new_partial-calm : (config : Configuration) → NeverPanics (new_partial S config)
  unfolding new_partial build_import_queue
  new_partial-calm config = search (calm_rules, start_telemetry-calm, spawn_telemetry-calm) depth 20

  module _ (config polkadot_config : Configuration) (options : T.CollatorOptions) (para_id : ℕ)
      (hwbench : Option T.HwBench) where
    build_node-calm :
        (p : Partial T)
        → NeverPanics (build_node S config polkadot_config options para_id hwbench p)
    unfolding build_node
    build_node-calm p = search calm_rules depth 16

    pub build_node-key :
        (p : Partial T)
        → GivesKey S config polkadot_config options hwbench
        → Returns
            (λ n. n.collator_key ≢ none)
            (build_node S config polkadot_config options para_id hwbench p)
    unfolding build_node
    build_node-key p h = Returns-bind _ _ λ _. Returns-bind_ok _ _ λ (interface, key) e.
        Returns-bind _ _ λ _. Returns-bind _ _ λ _. Returns-pure _ _ (
          h p.telemetry_worker_handle interface key
            (map_err_ok application _ _ (lift_done _ _ _ e)))

  module _ (config : Configuration) (n : Node S) where
    spawn_offchain_workers-calm : NeverPanics (spawn_offchain_workers S config n)
    unfolding spawn_offchain_workers
    spawn_offchain_workers-calm = search calm_rules depth 12

    spawn_rpc-calm : NeverPanics (spawn_rpc S config n)
    unfolding spawn_rpc
    spawn_rpc-calm = search calm_rules depth 12

    start_relay_tasks-calm :
        (validator : Bool) (para_id duration : ℕ) (overseer : T.OverseerHandle)
        → NeverPanics (start_relay_tasks S validator para_id duration n overseer)
    unfolding start_relay_tasks
    start_relay_tasks-calm validator para_id duration overseer = search calm_rules depth 12

    start_collating-calm :
        (para_id duration : ℕ) (overseer : T.OverseerHandle)
        → n.collator_key ≢ none
        → NeverPanics (start_collating S config para_id duration n overseer)
    unfolding start_collating start_consensus
    start_collating-calm para_id duration overseer h =
        NeverPanics-bind (NeverPanics-expect _ _ h) (λ key. search calm_rules depth 16)

  warn_of_hardware-calm :
      (validator : Bool) (result : Result String (Unit {0}))
      → NeverPanics (warn_of_hardware S validator result)
  unfolding warn_of_hardware
  warn_of_hardware-calm true (err message) = search calm_rules
  warn_of_hardware-calm true (ok _) = search calm_rules
  warn_of_hardware-calm false result = search calm_rules

  spawn_hwbench_telemetry-calm :
      (telemetry : Option T.Telemetry) → NeverPanics (spawn_hwbench_telemetry S telemetry)
  unfolding spawn_hwbench_telemetry
  spawn_hwbench_telemetry-calm none = search calm_rules
  spawn_hwbench_telemetry-calm (some telemetry) = search calm_rules

  report_hwbench-calm :
      (validator : Bool) (telemetry : Option T.Telemetry) (hwbench : Option T.HwBench)
      → NeverPanics (report_hwbench S validator telemetry hwbench)
  unfolding report_hwbench
  report_hwbench-calm validator telemetry none = search calm_rules
  report_hwbench-calm validator telemetry (some hwbench) =
      search (calm_rules, warn_of_hardware-calm, spawn_hwbench_telemetry-calm) depth 8

  set_up-calm :
      (config polkadot_config : Configuration) (options : T.CollatorOptions) (para_id : ℕ)
      (hwbench : Option T.HwBench)
      → (is_authority config.role ≡ true → GivesKey S config polkadot_config options hwbench)
      → NeverPanics (set_up S config polkadot_config options para_id hwbench)
  unfolding set_up
  set_up-calm config polkadot_config options para_id hwbench h =
      NeverPanics-bind (new_partial-calm config) λ p.
        NeverPanics-bind_done _ (build_node-calm config polkadot_config options para_id hwbench p)
          λ n e.
            NeverPanics-bind (NeverPanics-when _ _ (λ _. spawn_offchain_workers-calm config n)) λ _.
              NeverPanics-bind (spawn_rpc-calm config n) λ _.
                NeverPanics-bind (report_hwbench-calm _ _ _) λ _.
                  NeverPanics-bind (search calm_rules) λ overseer.
                    NeverPanics-bind (start_relay_tasks-calm config n _ _ _ _) λ _.
                      NeverPanics-bind
                        (NeverPanics-when _ _ λ b. start_collating-calm config n _ _ _ (
                          (build_node-key config polkadot_config options para_id hwbench p
                              (h b)).holds
                            n e))
                        (λ _. NeverPanics-pure p.client)

  -- Where the relay chain interface of an authority comes with a collator key,
  -- `start_parachain_node` never panics, whatever the SDK's calls return. A node of another role
  -- needs no key.
  pub start_parachain_node-NeverPanics :
      (config polkadot_config : Configuration) (options : T.CollatorOptions) (para_id : ℕ)
      (hwbench : Option T.HwBench)
      → (is_authority (S.prepare_node_config config).role ≡ true
          → GivesKey S (S.prepare_node_config config) polkadot_config options hwbench)
      → NeverPanics (start_parachain_node S config polkadot_config options para_id hwbench)
  unfolding start_parachain_node
  start_parachain_node-NeverPanics config polkadot_config options para_id hwbench h =
      NeverPanics-bind
        (set_up-calm (S.prepare_node_config config) polkadot_config options para_id hwbench h)
        (λ client. search calm_rules)
