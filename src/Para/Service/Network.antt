-- ===== src/Para/Service/Network.antt =====
-- When the network is started.
use sub0_bangkok_challenges.Common.{ℕ, refl, Option, none, some}
use sub0_bangkok_challenges.Common.Last.{OnlyLast, emit-pure-OnlyLast}
use sub0_bangkok_challenges.Node.Task.{Configuration}
use sub0_bangkok_challenges.Para.Service.{Types, Event, network_started, Sdk, start_parachain_node}
use sub0_bangkok_challenges.Para.Service.Silent.{Drops, DropsDuties, set_up-silent}

abbrev pub start_of : {T : Types} → Event T → Option (Unit {0})
start_of network_started = some tt
start_of _ = none

start_of-Drops : {T : Types} → Drops (start_of {T = T})
start_of-Drops = record {
  spawned_dropped = λ _. refl;
  lent_dropped = λ _ _. refl;
  workers_dropped = λ _. refl;
}

start_of-DropsDuties : {T : Types} → DropsDuties (start_of {T = T})
start_of-DropsDuties = record { warning_dropped = λ _. refl; collating_dropped = λ _. refl }

-- The network is started exactly once and last if the node comes up, and never if it does not.
pub start_parachain_node-OnlyLast :
    {T : Types} (S : Sdk T) (config polkadot_config : Configuration) (options : T.CollatorOptions)
    (para_id : ℕ) (hwbench : Option T.HwBench)
    → OnlyLast start_of network_started
        (start_parachain_node S config polkadot_config options para_id hwbench)
unfolding start_parachain_node
start_parachain_node-OnlyLast S config polkadot_config options para_id hwbench =
    emit-pure-OnlyLast start_of network_started _ (λ client. client)
      (set_up-silent S start_of-Drops start_of-DropsDuties (λ _. refl)
        (S.prepare_node_config config) polkadot_config options para_id hwbench)
