-- ===== src/Para/Service/Reports.antt =====
-- What an authority does that a full node does not: it warns of weak hardware, and collates.
use sub0_bangkok_challenges.Common.{
  ℕ, refl, String, Bool, true, false, Option, none, some, List, [], ◌∷◌, ◌++◌, Result, ok, err, opt,
  if◌then◌else◌,
}
use sub0_bangkok_challenges.Common.Emits.{
  Emits, Emits-bind, Emits-then, Emits-after, Emits-pure, Emits-lift, Emits-drop, Emits-keep,
  Emits-when, silent,
}
use sub0_bangkok_challenges.Node.Task.{Configuration, Role, is_authority}
use sub0_bangkok_challenges.Para.Service.{
  Types, Event, hardware_warning, collating, Sdk, Node, warn_of_hardware, report_hwbench,
  start_collating, start_consensus, set_up, start_parachain_node,
}
use sub0_bangkok_challenges.Para.Service.Silent.{
  Drops, new_partial-silent, build_node-silent, spawn_offchain_workers-silent, spawn_rpc-silent,
  spawn_hwbench_telemetry-silent, start_relay_tasks-silent,
}

-- A warning, or a collator with the parachain, the relay chain's slot and the time to author.
pub data Duty : Type 0 where
  warns : (message : String) → Duty
  collates : (para_id slot_secs authoring_millis : ℕ) → Duty

abbrev pub duty_of : {T : Types} → Event T → Option Duty
duty_of (hardware_warning message) = some (warns message)
duty_of (collating params) =
    some (
      collates params.para_id params.relay_chain_slot_duration_secs
        params.authoring_duration_millis)
duty_of _ = none

duty_of-Drops : {T : Types} → Drops (duty_of {T = T})
duty_of-Drops = record {
  spawned_dropped = λ _. refl;
  lent_dropped = λ _ _. refl;
  workers_dropped = λ _. refl;
}

-- The warning that a check of the hardware gives.
unfoldable pub warnings : Result String (Unit {0}) → List Duty
warnings (ok _) = []
warnings (err message) = warns message ∷ []

module _ {T : Types} (S : Sdk T) where
  unfoldable pub hardware_duties : Option T.HwBench → List Duty
  hardware_duties none = []
  hardware_duties (some hwbench) = warnings (S.check_hardware hwbench)

  -- Of a node in this role, for this parachain.
  unfoldable pub duties : Role → ℕ → Option T.HwBench → List Duty
  duties role para_id hwbench =
      (if is_authority role then hardware_duties hwbench else [])
      ++ opt (is_authority role) (collates para_id 6 2000)

  warn_of_hardware-duty :
      (validator : Bool) (result : Result String (Unit {0}))
      → Emits duty_of
          (if validator then warnings result else [])
          (warn_of_hardware S validator result)
  unfolding warn_of_hardware warnings
  warn_of_hardware-duty true (ok _) = Emits-pure tt
  warn_of_hardware-duty true (err message) = Emits-keep _ refl
  warn_of_hardware-duty false result = Emits-pure tt

  report_hwbench-duty :
      (validator : Bool) (telemetry : Option T.Telemetry) (hwbench : Option T.HwBench)
      → Emits duty_of
          (if validator then hardware_duties hwbench else [])
          (report_hwbench S validator telemetry hwbench)
  unfolding report_hwbench hardware_duties
  report_hwbench-duty true telemetry none = Emits-pure tt
  report_hwbench-duty false telemetry none = Emits-pure tt
  report_hwbench-duty validator telemetry (some hwbench) = Emits-after (Emits-drop _ refl) λ _.
      Emits-then (warn_of_hardware-duty validator _)
        λ _. spawn_hwbench_telemetry-silent S duty_of-Drops telemetry

  start_collating-duty :
      (config : Configuration) (para_id duration : ℕ) (n : Node S) (overseer : T.OverseerHandle)
      → Emits duty_of
          (collates para_id duration 2000 ∷ [])
          (start_collating S config para_id duration n overseer)
  unfolding start_collating start_consensus
  start_collating-duty config para_id duration n overseer = Emits-after (search silent) λ key.
      Emits-after (Emits-drop _ refl) λ _.
        Emits-after (Emits-drop _ refl) λ _. Emits-then (Emits-keep _ refl) (λ _. search silent)

  set_up-duties :
      (config polkadot_config : Configuration) (options : T.CollatorOptions) (para_id : ℕ)
      (hwbench : Option T.HwBench)
      → Emits duty_of
          (duties config.role para_id hwbench)
          (set_up S config polkadot_config options para_id hwbench)
  unfolding set_up duties
  set_up-duties config polkadot_config options para_id hwbench =
      Emits-after (new_partial-silent S duty_of-Drops config) λ p.
        Emits-after
          (build_node-silent S duty_of-Drops config polkadot_config options para_id hwbench p)
          λ n. Emits-after (search (silent, spawn_offchain_workers-silent S duty_of-Drops)) λ _.
            Emits-after (spawn_rpc-silent S duty_of-Drops config n) λ _.
              Emits-bind (report_hwbench-duty _ p.telemetry hwbench) λ _.
                Emits-after (Emits-lift _) λ overseer.
                  Emits-after (start_relay_tasks-silent S duty_of-Drops _ para_id 6 n overseer) λ _.
                    Emits-then
                      (Emits-when _ _ (λ _. start_collating-duty config para_id 6 n overseer))
                      (λ _. Emits-pure _)

  -- A node that starts has done exactly the duties of its role: an authority was warned if the
  -- benchmark of its hardware fails the check, and collates for the given parachain; a full node
  -- does neither. A node that does not start has done a beginning of them.
  pub start_parachain_node-duties :
      (config polkadot_config : Configuration) (options : T.CollatorOptions) (para_id : ℕ)
      (hwbench : Option T.HwBench)
      → Emits duty_of
          (duties (S.prepare_node_config config).role para_id hwbench)
          (start_parachain_node S config polkadot_config options para_id hwbench)
  unfolding start_parachain_node
  start_parachain_node-duties config polkadot_config options para_id hwbench =
      Emits-then
        (set_up-duties (S.prepare_node_config config) polkadot_config options para_id hwbench)
        (λ client. Emits-after (Emits-drop _ refl) (λ _. Emits-pure client))
