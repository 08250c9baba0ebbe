-- ===== src/Solo/Command/Runs.antt =====
-- What a run does for each command line.
use sub0_bangkok_challenges.Common.{
  ◌≡◌, refl, ◌↔◌, Bool, true, false, Option, none, some, [], ◌∷◌, ◌>>=◌, settle, ◌≢◌, String,
  panicked,
}
use sub0_bangkok_challenges.Common.Emits.{
  Emits, Emits-after, Emits-then, Emits-lift, Emits-settle, Emits-keep, Emits-panic, Emits-embed,
}
use sub0_bangkok_challenges.Common.Panics.{
  NeverPanics, NeverPanics-embed, NeverPanics-settle, NeverPanics-bind, calm_rules, Panics, panics,
  Panics-iff, Panics-only_if,
}
use sub0_bangkok_challenges.Node.Task.{Configuration, NetworkBackendType}
use sub0_bangkok_challenges.Node.Cli.{service}
use sub0_bangkok_challenges.Solo.Service.{
  Types, Event, network_started, Sdk, Partial, new_full, new_partial,
}
use sub0_bangkok_challenges.Solo.Service.Silent.{
  Drops, DropsConsensus, set_up-silent, new_partial-silent,
}
use sub0_bangkok_challenges.Solo.Service.Success.{
  HasGenesis, new_full-NeverPanics, new_partial-calm,
}
use sub0_bangkok_challenges.Solo.Cli.{Cli, Subcommand}
use sub0_bangkok_challenges.Solo.Cli
use sub0_bangkok_challenges.Solo.Command.{
  Call, key, build_spec, check_block, export_blocks, export_state, import_blocks, purge_chain,
  revert, chain_info, Action, called, node, Commands, call, parts, run_subcommand, run_node,
  dispatch, run,
}

-- What a run is for: a subcommand, or the node.
pub data Request (Cmd : Type 0) : Type 0 where
  command : Subcommand Cmd → Request Cmd
  start : Request Cmd

module _ {T : Types} {Cmd : Type 0} where
  -- The subcommand that a call is made for.
  abbrev pub subcommand_of : Call T Cmd → Subcommand Cmd
  subcommand_of (key cmd) = Cli.key cmd
  subcommand_of (build_spec cmd _ _) = Cli.build_spec cmd
  subcommand_of (check_block cmd _ _) = Cli.check_block cmd
  subcommand_of (export_blocks cmd _ _) = Cli.export_blocks cmd
  subcommand_of (export_state cmd _ _) = Cli.export_state cmd
  subcommand_of (import_blocks cmd _ _) = Cli.import_blocks cmd
  subcommand_of (purge_chain cmd _) = Cli.purge_chain cmd
  subcommand_of (revert cmd _ _ _) = Cli.revert cmd
  subcommand_of (chain_info cmd _) = Cli.chain_info cmd

  abbrev pub started_by : Event T → Option (Request Cmd)
  started_by network_started = some start
  started_by _ = none

  abbrev pub request_of : Action T Cmd → Option (Request Cmd)
  request_of (called c) = some (command (subcommand_of c))
  request_of (node e) = started_by e

  started_by-Drops : Drops started_by
  started_by-Drops = record {
    spawned_dropped = λ _. refl;
    lent_dropped = λ _ _. refl;
    workers_dropped = λ _. refl;
  }

  started_by-DropsConsensus : DropsConsensus started_by
  started_by-DropsConsensus = record {
    importing_dropped = λ _. refl;
    author_dropped = λ _. refl;
    voter_dropped = λ _. refl;
  }

-- The request of a command line.
abbrev pub request : {Cmd : Type 0} → Option (Subcommand Cmd) → Request Cmd
request none = start
request (some cmd) = command cmd

abbrev pub is_benchmark : {Cmd : Type 0} → Option (Subcommand Cmd) → Bool
is_benchmark (some (Cli.benchmark _)) = true
is_benchmark _ = false

-- The runners, which load the chain specification, do not panic.
pub record RunnersReturn {T : Types} {Cmd RunCmd : Type 0} (K : Commands T Cmd RunCmd)
    : Type 0 where
  pub runner_calm : (cmd : Cmd) (s : String) → K.create_runner cmd ≢ panicked s
  pub node_runner_calm : (cmd : RunCmd) (s : String) → K.create_node_runner cmd ≢ panicked s

module _ {T : Types} {Cmd RunCmd : Type 0} (K : Commands T Cmd RunCmd)
    (S : NetworkBackendType → Sdk T) where
  call-request : (c : Call T Cmd) → Emits request_of (command (subcommand_of c) ∷ []) (call K S c)
  unfolding call
  call-request c = Emits-then (Emits-keep _ refl) (λ _. Emits-lift _)

  parts-request : (config : Configuration) → Emits request_of [] (parts K S config)
  unfolding parts
  parts-request config =
      Emits-embed service node (new_partial (S config.network.network_backend) config)
        (new_partial-silent (S config.network.network_backend) started_by-Drops (λ _. refl) config)

  run_node-request : (cmd : RunCmd) → Emits request_of (start ∷ []) (run_node K S cmd)
  unfolding run_node new_full
  run_node-request cmd = Emits-after (Emits-settle _) λ config.
      Emits-embed service node (new_full (S config.network.network_backend) config) (
        Emits-after
          (set_up-silent (S config.network.network_backend) started_by-Drops
            started_by-DropsConsensus config)
          (λ _. Emits-keep _ refl))

  -- A subcommand that gets the parts of a node.
  with_parts-request :
      {r : Subcommand Cmd} (cmd : Cmd) (c : Configuration → Partial T → Call T Cmd)
      → ((config : Configuration) (p : Partial T)
          → Emits request_of (command r ∷ []) (call K S (c config p)))
      → Emits request_of (command r ∷ []) (
          settle (K.create_runner cmd) >>= λ config.
          parts K S config >>= λ p. call K S (c config p))
  with_parts-request cmd c h =
      Emits-after (Emits-settle _) (λ config. Emits-after (parts-request config) (λ p. h config p))

  run_subcommand-request :
      (cmd : Subcommand Cmd) → Emits request_of (command cmd ∷ []) (run_subcommand K S cmd)
  unfolding run_subcommand
  run_subcommand-request (Cli.key cmd) = call-request _
  run_subcommand-request (Cli.build_spec cmd) =
      Emits-after (Emits-settle _) (λ config. call-request _)
  run_subcommand-request (Cli.check_block cmd) =
      with_parts-request cmd _ (λ config p. call-request _)
  run_subcommand-request (Cli.export_blocks cmd) =
      with_parts-request cmd _ (λ config p. call-request _)
  run_subcommand-request (Cli.export_state cmd) =
      with_parts-request cmd _ (λ config p. call-request _)
  run_subcommand-request (Cli.import_blocks cmd) =
      with_parts-request cmd _ (λ config p. call-request _)
  run_subcommand-request (Cli.purge_chain cmd) =
      Emits-after (Emits-settle _) (λ config. call-request _)
  run_subcommand-request (Cli.revert cmd) = with_parts-request cmd _ (λ config p. call-request _)
  run_subcommand-request (Cli.benchmark cmd) = Emits-panic _
  run_subcommand-request (Cli.chain_info cmd) =
      Emits-after (Emits-settle _) (λ config. call-request _)

  dispatch-request :
      (cmd : RunCmd) (subcommand : Option (Subcommand Cmd))
      → Emits request_of (request subcommand ∷ []) (dispatch K S cmd subcommand)
  unfolding dispatch
  dispatch-request cmd none = run_node-request cmd
  dispatch-request cmd (some subcommand) = run_subcommand-request subcommand

  -- A run that succeeds has performed exactly one thing: the command of its subcommand, or, without
  -- one, the start of the node's network. A run that fails has performed that or nothing.
  pub run-Emits :
      (cli : Cli Cmd RunCmd) → Emits request_of (request cli.subcommand ∷ []) (run K S cli)
  unfolding run
  run-Emits cli = dispatch-request cli.run cli.subcommand

  module _ (h : (backend : NetworkBackendType) → HasGenesis (S backend))
      (runners : RunnersReturn K) where
    runner-calm : (cmd : Cmd) → NeverPanics {E = Action T Cmd} (settle (K.create_runner cmd))
    runner-calm cmd = NeverPanics-settle _ (runners.runner_calm cmd)

    parts-calm : (config : Configuration) → NeverPanics (parts K S config)
    unfolding parts
    parts-calm config =
        NeverPanics-embed service node _
          (new_partial-calm (S config.network.network_backend) config)

    call-calm : (c : Call T Cmd) → NeverPanics (call K S c)
    unfolding call
    call-calm c = search calm_rules

    run_node-calm : (cmd : RunCmd) → NeverPanics (run_node K S cmd)
    unfolding run_node
    run_node-calm cmd =
        NeverPanics-bind (NeverPanics-settle _ (runners.node_runner_calm cmd)) λ config.
          NeverPanics-embed service node _ (
            new_full-NeverPanics (S config.network.network_backend)
              (h config.network.network_backend) config)

    run_subcommand-calm :
        (cmd : Subcommand Cmd)
        → is_benchmark (some cmd) ≡ false
        → NeverPanics (run_subcommand K S cmd)
    unfolding run_subcommand
    run_subcommand-calm (Cli.key cmd) e = call-calm _
    run_subcommand-calm (Cli.build_spec cmd) e = search (calm_rules, runner-calm, call-calm)
    run_subcommand-calm (Cli.check_block cmd) e =
        search (calm_rules, runner-calm, call-calm, parts-calm)
    run_subcommand-calm (Cli.export_blocks cmd) e =
        search (calm_rules, runner-calm, call-calm, parts-calm)
    run_subcommand-calm (Cli.export_state cmd) e =
        search (calm_rules, runner-calm, call-calm, parts-calm)
    run_subcommand-calm (Cli.import_blocks cmd) e =
        search (calm_rules, runner-calm, call-calm, parts-calm)
    run_subcommand-calm (Cli.purge_chain cmd) e = search (calm_rules, runner-calm, call-calm)
    run_subcommand-calm (Cli.revert cmd) e = search (calm_rules, runner-calm, call-calm, parts-calm)
    run_subcommand-calm (Cli.benchmark cmd) e = cc
    run_subcommand-calm (Cli.chain_info cmd) e = search (calm_rules, runner-calm, call-calm)

    run_subcommand-Benchmark :
        (cmd : Subcommand Cmd) → is_benchmark (some cmd) ≡ true → Panics (run_subcommand K S cmd)
    unfolding run_subcommand
    run_subcommand-Benchmark (Cli.benchmark cmd) e = panics _ _
    run_subcommand-Benchmark (Cli.key cmd) e = cc
    run_subcommand-Benchmark (Cli.build_spec cmd) e = cc
    run_subcommand-Benchmark (Cli.check_block cmd) e = cc
    run_subcommand-Benchmark (Cli.export_blocks cmd) e = cc
    run_subcommand-Benchmark (Cli.export_state cmd) e = cc
    run_subcommand-Benchmark (Cli.import_blocks cmd) e = cc
    run_subcommand-Benchmark (Cli.purge_chain cmd) e = cc
    run_subcommand-Benchmark (Cli.revert cmd) e = cc
    run_subcommand-Benchmark (Cli.chain_info cmd) e = cc

    dispatch-Panics :
        (cmd : RunCmd) (subcommand : Option (Subcommand Cmd))
        → Panics (dispatch K S cmd subcommand) ↔ (is_benchmark subcommand ≡ true)
    unfolding dispatch
    dispatch-Panics cmd none = Panics-only_if (run_node-calm cmd)
    dispatch-Panics cmd (some subcommand) =
        Panics-iff _ (run_subcommand-Benchmark subcommand) (run_subcommand-calm subcommand)

  -- Where the client has its genesis block, with either network backend, and the runners, which
  -- load the chain specification, do not panic, a run panics exactly if its subcommand is the
  -- benchmark.
  pub run-Panics :
      ((backend : NetworkBackendType) → HasGenesis (S backend))
      → RunnersReturn K
      → (cli : Cli Cmd RunCmd) → Panics (run K S cli) ↔ (is_benchmark cli.subcommand ≡ true)
  unfolding run
  run-Panics h runners cli = dispatch-Panics h runners cli.run cli.subcommand
