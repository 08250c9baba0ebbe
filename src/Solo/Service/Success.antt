-- ===== src/Solo/Service/Success.antt =====
-- When `new_full` cannot panic, and when it starts the node.
use sub0_bangkok_challenges.Common.{◌≢◌, ℕ, Option, none, some}
use sub0_bangkok_challenges.Common.Panics.{
  NeverPanics, NeverPanics-when, NeverPanics-expect, NeverPanics-bind, calm_rules,
}
use sub0_bangkok_challenges.Common.Completes.{
  Completes, IsOk, Completes-expect, Completes-when, Completes-bind, success,
}
use sub0_bangkok_challenges.Node.Task.{Configuration, Endpoints}
use sub0_bangkok_challenges.Solo.Service.{
  Types, Sdk, Partial, Node, BuildNetworkParams, ImportQueueParams, SpawnTasksParams,
  StartAuraParams, GrandpaParams, start_telemetry, spawn_telemetry, new_partial, build_network,
  spawn_offchain_workers, spawn_rpc, start_authoring, start_voter, set_up, new_full,
}

-- The client of a started node has its genesis block.
abbrev pub HasGenesis : {T : Types} → Sdk T → Type 0
HasGenesis {T} S = (client : T.Client) → S.genesis_hash client ≢ none

-- No call of the SDK fails.
pub record Works {T : Types} (S : Sdk T) : Type 0 where
  pub genesis : HasGenesis S
  pub worker : (buffer : ℕ) → IsOk (S.worker_new buffer)
  pub parts :
      (config : Configuration) (handle : Option T.Handle) (executor : T.Executor)
      → IsOk (S.new_full_parts config handle executor)
  pub grandpa :
      (client : T.Client) (period : ℕ) (chain : T.SelectChain) (handle : Option T.Handle)
      → IsOk (S.grandpa_block_import client period chain handle)
  pub queue : (params : ImportQueueParams T) → IsOk (S.new_import_queue params)
  pub network : (params : BuildNetworkParams T) → IsOk (S.build_network params)
  pub rpc : (params : SpawnTasksParams T) → IsOk (S.spawn_tasks params)
  pub slots : (client : T.Client) → IsOk (S.slot_duration client)
  pub aura : (params : StartAuraParams T) → IsOk (S.start_aura params)
  pub vote : (params : GrandpaParams T) → IsOk (S.run_grandpa_voter params)

module _ {T : Types} (S : Sdk T) where
  start_telemetry-calm : (endpoints : Option Endpoints) → NeverPanics (start_telemetry S endpoints)
  unfolding start_telemetry
  start_telemetry-calm none = search calm_rules
  start_telemetry-calm (some endpoints) = search calm_rules

  spawn_telemetry-calm :
      (started : Option (T.Worker × T.Telemetry)) → NeverPanics (spawn_telemetry S started)
  unfolding spawn_telemetry
  spawn_telemetry-calm none = search calm_rules
  spawn_telemetry-calm (some started) = search calm_rules

  pub new_partial-calm : (config : Configuration) → NeverPanics (new_partial S config)
  unfolding new_partial
  new_partial-calm config = search (calm_rules, start_telemetry-calm, spawn_telemetry-calm) depth 20

  build_network-calm :
      HasGenesis S
      → (config : Configuration) (p : Partial T) → NeverPanics (build_network S config p)
  unfolding build_network
  build_network-calm h config p =
      NeverPanics-bind (NeverPanics-expect _ _ (h p.client)) (λ genesis. search calm_rules depth 12)

  module _ (config : Configuration) (n : Node S) where
    spawn_offchain_workers-calm : NeverPanics (spawn_offchain_workers S config n)
    unfolding spawn_offchain_workers
    spawn_offchain_workers-calm = search calm_rules depth 12

    spawn_rpc-calm : NeverPanics (spawn_rpc S config n)
    unfolding spawn_rpc
    spawn_rpc-calm = search calm_rules depth 12

    start_authoring-calm : NeverPanics (start_authoring S config n)
    unfolding start_authoring
    start_authoring-calm = search calm_rules depth 16

    start_voter-calm : NeverPanics (start_voter S config n)
    unfolding start_voter
    start_voter-calm = search calm_rules depth 12

  set_up-calm : HasGenesis S → (config : Configuration) → NeverPanics (set_up S config)
  unfolding set_up
  set_up-calm h config =
      search
        (
          calm_rules,
          NeverPanics-when,
          new_partial-calm,
          build_network-calm h,
          spawn_offchain_workers-calm,
          spawn_rpc-calm,
          start_authoring-calm,
          start_voter-calm,
        )
        depth 20

  -- Where the client has its genesis block, `new_full` never panics, whatever else of the SDK
  -- fails.
  pub new_full-NeverPanics :
      HasGenesis S → (config : Configuration) → NeverPanics (new_full S config)
  unfolding new_full
  new_full-NeverPanics h config = search (calm_rules, set_up-calm h)

module _ {T : Types} (S : Sdk T) (w : Works S) where
  start_telemetry-works : (endpoints : Option Endpoints) → Completes (start_telemetry S endpoints)
  unfolding start_telemetry
  start_telemetry-works none = search success
  start_telemetry-works (some endpoints) = search (success, w.worker)

  spawn_telemetry-works :
      (started : Option (T.Worker × T.Telemetry)) → Completes (spawn_telemetry S started)
  unfolding spawn_telemetry
  spawn_telemetry-works none = search success
  spawn_telemetry-works (some started) = search success

  pub new_partial-works : (config : Configuration) → Completes (new_partial S config)
  unfolding new_partial
  new_partial-works config =
      search (success, start_telemetry-works, spawn_telemetry-works, w.parts, w.grandpa, w.queue)
        depth 24

  build_network-works :
      (config : Configuration) (p : Partial T) → Completes (build_network S config p)
  unfolding build_network
  build_network-works config p =
      Completes-bind (Completes-expect _ _ (w.genesis p.client))
        (λ genesis. search (success, w.network) depth 12)

  module _ (config : Configuration) (n : Node S) where
    spawn_offchain_workers-works : Completes (spawn_offchain_workers S config n)
    unfolding spawn_offchain_workers
    spawn_offchain_workers-works = search success depth 12

    spawn_rpc-works : Completes (spawn_rpc S config n)
    unfolding spawn_rpc
    spawn_rpc-works = search (success, w.rpc) depth 12

    start_authoring-works : Completes (start_authoring S config n)
    unfolding start_authoring
    start_authoring-works = search (success, w.slots, w.aura) depth 16

    start_voter-works : Completes (start_voter S config n)
    unfolding start_voter
    start_voter-works = search (success, w.vote) depth 12

  set_up-works : (config : Configuration) → Completes (set_up S config)
  unfolding set_up
  set_up-works config =
      search
        (
          success, Completes-when, new_partial-works, build_network-works,
          spawn_offchain_workers-works, spawn_rpc-works, start_authoring-works, start_voter-works,
        )
        depth 20

  -- Where no call of the SDK fails and the client has its genesis block, `new_full` starts the
  -- node, for every configuration.
  pub new_full-Completes : (config : Configuration) → Completes (new_full S config)
  unfolding new_full
  new_full-Completes config = search (success, set_up-works)
