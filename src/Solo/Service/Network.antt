-- ===== src/Solo/Service/Network.antt =====
-- When the network is started.
use sub0_bangkok_challenges.Common.{refl, Option, none, some}
use sub0_bangkok_challenges.Common.Last.{OnlyLast, emit-OnlyLast}
use sub0_bangkok_challenges.Node.Task.{Configuration}
use sub0_bangkok_challenges.Solo.Service.{Types, Event, network_started, Sdk, set_up, new_full}
use sub0_bangkok_challenges.Solo.Service.Silent.{Drops, DropsConsensus, set_up-silent}

abbrev pub start_of : {T : Types} → Event T → Option (Unit {0})
start_of network_started = some tt
start_of _ = none

start_of-Drops : {T : Types} → Drops (start_of {T = T})
start_of-Drops = record {
  spawned_dropped = λ _. refl;
  lent_dropped = λ _ _. refl;
  workers_dropped = λ _. refl;
}

start_of-DropsConsensus : {T : Types} → DropsConsensus (start_of {T = T})
start_of-DropsConsensus = record {
  importing_dropped = λ _. refl;
  author_dropped = λ _. refl;
  voter_dropped = λ _. refl;
}

-- The network is started exactly once and last if the node comes up, and never if it does not.
pub new_full-OnlyLast :
    {T : Types} (S : Sdk T) (config : Configuration)
    → OnlyLast start_of network_started (new_full S config)
unfolding new_full
new_full-OnlyLast S config =
    emit-OnlyLast start_of network_started (set_up S config)
      (set_up-silent S start_of-Drops start_of-DropsConsensus config)
