-- ===== src/Solo/Service/Silent.antt =====
-- `new_full` and its parts under a projection that drops what they log.
use sub0_bangkok_challenges.Common.{◌≡◌, String, Bool, Option, none, some, []}
use sub0_bangkok_challenges.Common.Emits.{Emits, silent}
use sub0_bangkok_challenges.Node.Task.{Configuration, Task, Endpoints}
use sub0_bangkok_challenges.Solo.Service.{
  Types, Event, spawned, lent, offchain_workers, importing, voter, author, OffchainWorkerOptions,
  ImportQueueParams, StartAuraParams, GrandpaParams, start_authoring, start_voter, set_up, Sdk,
  Partial, Node, start_telemetry, spawn_telemetry, new_partial, build_network,
  spawn_offchain_workers, spawn_rpc,
}

pub record Drops {T : Types} {F : Type 0} (p : Event T → Option F) : Type 0 where
  pub spawned_dropped : (t : Task) → p (spawned t) ≡ none
  pub lent_dropped : (name : String) (essential : Bool) → p (lent name essential) ≡ none
  pub workers_dropped : (o : OffchainWorkerOptions T) → p (offchain_workers o) ≡ none

pub record DropsConsensus {T : Types} {F : Type 0} (p : Event T → Option F) : Type 0 where
  pub importing_dropped : (params : ImportQueueParams T) → p (importing params) ≡ none
  pub author_dropped : (params : StartAuraParams T) → p (author params) ≡ none
  pub voter_dropped : (params : GrandpaParams T) → p (voter params) ≡ none

module _ {T : Types} {F : Type 0} (S : Sdk T) {p : Event T → Option F} (d : Drops p) where
  pub start_telemetry-silent :
      (endpoints : Option Endpoints) → Emits p [] (start_telemetry S endpoints)
  unfolding start_telemetry
  start_telemetry-silent none = search silent
  start_telemetry-silent (some endpoints) = search silent

  pub spawn_telemetry-silent :
      (started : Option (T.Worker × T.Telemetry)) → Emits p [] (spawn_telemetry S started)
  unfolding spawn_telemetry
  spawn_telemetry-silent none = search silent
  spawn_telemetry-silent (some started) = search (silent, d.spawned_dropped)

  pub new_partial-silent :
      ((params : ImportQueueParams T) → p (importing params) ≡ none)
      → (config : Configuration) → Emits p [] (new_partial S config)
  unfolding new_partial
  new_partial-silent importing_dropped config =
      search
        (silent, d.lent_dropped, importing_dropped, start_telemetry-silent, spawn_telemetry-silent)
        depth 24

  pub build_network-silent :
      (config : Configuration) (q : Partial T) → Emits p [] (build_network S config q)
  unfolding build_network
  build_network-silent config q = search (silent, d.lent_dropped) depth 12

  module _ (config : Configuration) (n : Node S) where
    pub spawn_offchain_workers-silent : Emits p [] (spawn_offchain_workers S config n)
    unfolding spawn_offchain_workers
    spawn_offchain_workers-silent =
        search (silent, d.spawned_dropped, d.lent_dropped, d.workers_dropped) depth 12

    pub spawn_rpc-silent : Emits p [] (spawn_rpc S config n)
    unfolding spawn_rpc
    spawn_rpc-silent = search (silent, d.lent_dropped) depth 12

  module _ (c : DropsConsensus p) where
    start_authoring-silent :
        (config : Configuration) (n : Node S) → Emits p [] (start_authoring S config n)
    unfolding start_authoring
    start_authoring-silent config n =
        search (silent, d.spawned_dropped, d.lent_dropped, c.author_dropped) depth 16

    start_voter-silent : (config : Configuration) (n : Node S) → Emits p [] (start_voter S config n)
    unfolding start_voter
    start_voter-silent config n = search (silent, d.spawned_dropped, c.voter_dropped) depth 12

    pub set_up-silent : (config : Configuration) → Emits p [] (set_up S config)
    unfolding set_up
    set_up-silent config =
        search
          (
            silent,
            new_partial-silent c.importing_dropped,
            build_network-silent,
            spawn_offchain_workers-silent,
            spawn_rpc-silent,
            start_authoring-silent,
            start_voter-silent,
          )
          depth 20
