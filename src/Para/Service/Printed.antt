-- ===== src/Para/Service/Printed.antt =====
-- Which hardware benchmarks the node prints.
use sub0_bangkok_challenges.Common.{ℕ, refl, Bool, Option, none, some, opt_list}
use sub0_bangkok_challenges.Common.Emits.{
  Emits, Emits-then, Emits-after, Emits-pure, Emits-lift, Emits-drop, Emits-keep, Emits-when_silent,
}
use sub0_bangkok_challenges.Node.Task.{Configuration}
use sub0_bangkok_challenges.Para.Service.{
  Types, Event, hwbench_printed, Sdk, report_hwbench, set_up, start_parachain_node,
}
use sub0_bangkok_challenges.Para.Service.Silent.{
  Drops, DropsDuties, new_partial-silent, build_node-silent, spawn_offchain_workers-silent,
  spawn_rpc-silent, warn_of_hardware-silent, spawn_hwbench_telemetry-silent,
  start_relay_tasks-silent, start_collating-silent,
}

abbrev pub printed : {T : Types} → Event T → Option T.HwBench
printed (hwbench_printed hwbench) = some hwbench
printed _ = none

printed-Drops : {T : Types} → Drops (printed {T = T})
printed-Drops = record {
  spawned_dropped = λ _. refl;
  lent_dropped = λ _ _. refl;
  workers_dropped = λ _. refl;
}

printed-DropsDuties : {T : Types} → DropsDuties (printed {T = T})
printed-DropsDuties = record { warning_dropped = λ _. refl; collating_dropped = λ _. refl }

module _ {T : Types} (S : Sdk T) where
  report_hwbench-printed :
      (validator : Bool) (telemetry : Option T.Telemetry) (hwbench : Option T.HwBench)
      → Emits printed (opt_list hwbench) (report_hwbench S validator telemetry hwbench)
  unfolding report_hwbench
  report_hwbench-printed validator telemetry none = Emits-pure tt
  report_hwbench-printed validator telemetry (some hwbench) = Emits-then (Emits-keep _ refl) λ _.
      Emits-after (warn_of_hardware-silent S printed-Drops printed-DropsDuties validator _)
        (λ _. spawn_hwbench_telemetry-silent S printed-Drops telemetry)

  set_up-printed :
      (config polkadot_config : Configuration) (options : T.CollatorOptions) (para_id : ℕ)
      (hwbench : Option T.HwBench)
      → Emits printed (opt_list hwbench) (set_up S config polkadot_config options para_id hwbench)
  unfolding set_up
  set_up-printed config polkadot_config options para_id hwbench =
      Emits-after (new_partial-silent S printed-Drops config) λ p.
        Emits-after
          (build_node-silent S printed-Drops config polkadot_config options para_id hwbench p)
          λ n.
            Emits-after
              (Emits-when_silent _ _ (spawn_offchain_workers-silent S printed-Drops config n))
              λ _. Emits-after (spawn_rpc-silent S printed-Drops config n) λ _.
                Emits-then (report_hwbench-printed _ p.telemetry hwbench) λ _.
                  Emits-after (Emits-lift _) λ overseer.
                    Emits-after (start_relay_tasks-silent S printed-Drops _ para_id 6 n overseer)
                      λ _.
                        Emits-after
                          (Emits-when_silent _ _ (
                            start_collating-silent S printed-Drops printed-DropsDuties config
                              para_id 6 n overseer))
                          (λ _. Emits-pure p.client)

  -- A node that starts has printed the given benchmark, if any, once.
  pub start_parachain_node-printed :
      (config polkadot_config : Configuration) (options : T.CollatorOptions) (para_id : ℕ)
      (hwbench : Option T.HwBench)
      → Emits printed
          (opt_list hwbench)
          (start_parachain_node S config polkadot_config options para_id hwbench)
  unfolding start_parachain_node
  start_parachain_node-printed config polkadot_config options para_id hwbench =
      Emits-then
        (set_up-printed (S.prepare_node_config config) polkadot_config options para_id hwbench)
        (λ client. Emits-after (Emits-drop _ refl) (λ _. Emits-pure client))
