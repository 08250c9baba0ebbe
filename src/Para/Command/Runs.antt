-- ===== src/Para/Command/Runs.antt =====
-- What a run does for each command line.
use sub0_bangkok_challenges.Common.{
  refl, Bool, Option, none, some, List, [], ◌∷◌, String, ◌>>=◌, settle, done, failed, panicked,
}
use sub0_bangkok_challenges.Common.Emits.{
  Emits, Emits-after, Emits-then, Emits-pure, Emits-lift, Emits-settle, Emits-fail, Emits-drop,
  Emits-keep, Emits-embed, Emits-if, silent,
}
use sub0_bangkok_challenges.Node.Task.{Configuration, FilePath}
use sub0_bangkok_challenges.Node.Cli.{
  service, input, BenchmarkCmd, pallet, block, storage, overhead, machine, extrinsic,
}
use sub0_bangkok_challenges.Para.Service.{
  Types, Partial, Event, network_started, Sdk, new_partial, start_parachain_node,
}
use sub0_bangkok_challenges.Para.Service.Silent.{
  Drops, DropsDuties, set_up-silent, new_partial-silent,
}
use sub0_bangkok_challenges.Node.Crypto.{Build}
use sub0_bangkok_challenges.Para.Cli.{Cli, Subcommand}
use sub0_bangkok_challenges.Para.Cli
use sub0_bangkok_challenges.Para.Command.{
  CliTypes, Call, build_spec, check_block, export_blocks, export_state, import_blocks, revert,
  purge_chain, export_genesis_head, export_genesis_wasm, benchmark_pallet, benchmark_block,
  benchmark_storage, benchmark_machine, Action, called, created_dir, gathered, info_is_collating,
  node, Commands, call, parts, relay_chain_config, run_storage_benchmark, run_benchmark,
  run_subcommand, measure, ok_or, run_node_with, run_node, dispatch, run,
}

-- What a run is for: a subcommand, or the node.
pub data Request (Cmd : Type 0) : Type 0 where
  command : Subcommand Cmd → Request Cmd
  start : Request Cmd

-- The request of a command line.
abbrev pub request : {Cmd : Type 0} → Option (Subcommand Cmd) → Request Cmd
request none = start
request (some cmd) = command cmd

module _ {T : Types} {Cmd : Type 0} where
  abbrev pub started_by : Event T → Option (Request Cmd)
  started_by network_started = some start
  started_by _ = none

  started_by-Drops : Drops started_by
  started_by-Drops = record {
    spawned_dropped = λ _. refl;
    lent_dropped = λ _ _. refl;
    workers_dropped = λ _. refl;
  }

  started_by-DropsDuties : DropsDuties started_by
  started_by-DropsDuties = record { warning_dropped = λ _. refl; collating_dropped = λ _. refl }

module _ {T : Types} {L : CliTypes} where
  -- The subcommand that a call is made for.
  abbrev pub subcommand_of : Call T L → Subcommand L.Cmd
  subcommand_of (build_spec cmd _ _) = Cli.build_spec cmd
  subcommand_of (check_block cmd _ _) = Cli.check_block cmd
  subcommand_of (export_blocks cmd _ _) = Cli.export_blocks cmd
  subcommand_of (export_state cmd _ _) = Cli.export_state cmd
  subcommand_of (import_blocks cmd _ _) = Cli.import_blocks cmd
  subcommand_of (revert cmd _ _) = Cli.revert cmd
  subcommand_of (purge_chain cmd _ _) = Cli.purge_chain cmd
  subcommand_of (export_genesis_head cmd _) = Cli.export_genesis_head cmd
  subcommand_of (export_genesis_wasm cmd _) = Cli.export_genesis_wasm cmd
  subcommand_of (benchmark_pallet cmd _) = Cli.benchmark (pallet cmd)
  subcommand_of (benchmark_block cmd _) = Cli.benchmark (block cmd)
  subcommand_of (benchmark_storage cmd _ _ _ _) = Cli.benchmark (storage cmd)
  subcommand_of (benchmark_machine cmd _) = Cli.benchmark (machine cmd)

  abbrev pub request_of : Action T L → Option (Request L.Cmd)
  request_of (called c) = some (command (subcommand_of c))
  request_of (node e) = started_by e
  request_of (created_dir _) = none
  request_of (gathered _) = none
  request_of (info_is_collating _) = none

-- Building a specification logs nothing.
Emits_lem : {F A : Type 0} {p : ⊥ → Option F} (m : Build A) → Emits p [] m
Emits_lem (done a, []) = record { by_outcome = refl }
Emits_lem (failed x, []) = record { by_outcome = ([], refl) }
Emits_lem (panicked s, []) = record { by_outcome = ([], refl) }
Emits_lem (r, e ∷ l) = absurd e

module _ {T : Types} {L : CliTypes} (K : Commands T L) (S : Sdk T) (benchmarks : Bool) where
  open L use {Cmd}

  call-request :
      (c : Call T L) → Emits request_of (command (subcommand_of c) ∷ []) (call K S benchmarks c)
  unfolding call
  call-request c = Emits-then (Emits-keep _ refl) (λ _. Emits-lift _)

  parts-request : (config : Configuration) → Emits request_of [] (parts K S benchmarks config)
  unfolding parts
  parts-request config =
      Emits-embed service node (new_partial S config) (new_partial-silent S started_by-Drops config)

  relay_chain_config-request :
      (args : List String) (config : Configuration)
      → Emits request_of [] (relay_chain_config K S benchmarks args config)
  unfolding relay_chain_config
  relay_chain_config-request args config = Emits-lift _

  measure-request : (path : Option FilePath) → Emits request_of [] (measure K S benchmarks path)
  unfolding measure
  measure-request none = search silent
  measure-request (some path) = search silent depth 8

  ok_or-request :
      {A : Type 0} (o : Option A) (message : String)
      → Emits request_of [] (ok_or K S benchmarks o message)
  unfolding ok_or
  ok_or-request none message = search silent
  ok_or-request (some a) message = search silent

  run_node-request :
      (cli : Cli Cmd L.RunCmd) → Emits request_of (start ∷ []) (run_node K S benchmarks cli)
  unfolding run_node run_node_with start_parachain_node
  run_node-request cli = Emits-after (Emits-settle _) λ config.
      Emits-after (measure-request _) λ measured. Emits-after (ok_or-request _ _) λ para_id.
        Emits-after (relay_chain_config-request _ config) λ polkadot_config.
          Emits-after (Emits-drop _ refl) λ _.
            Emits-then
              (Emits-embed service node _ (
                Emits-after
                  (set_up-silent S started_by-Drops started_by-DropsDuties (λ _. refl) _
                    polkadot_config _ para_id _)
                  (λ client. Emits-then (Emits-keep _ refl) (λ _. Emits-pure _))))
              (λ _. Emits-pure tt)

  -- A subcommand that gets the parts of a node.
  with_parts-request :
      {r : Subcommand Cmd} (cmd : Cmd) (c : Configuration → Partial T → Call T L)
      → ((config : Configuration) (p : Partial T)
          → Emits request_of (command r ∷ []) (call K S benchmarks (c config p)))
      → Emits request_of (command r ∷ []) (
          settle (K.create_runner cmd) >>= λ config.
          parts K S benchmarks config >>= λ p. call K S benchmarks (c config p))
  with_parts-request cmd c h =
      Emits-after (Emits-settle _) (λ config. Emits-after (parts-request config) (λ p. h config p))

  run_benchmark-request :
      (cmd : BenchmarkCmd Cmd)
      → Emits request_of (command (Cli.benchmark cmd) ∷ []) (run_benchmark K S benchmarks cmd)
  unfolding run_benchmark run_storage_benchmark
  run_benchmark-request (pallet cmd) =
      Emits-after (Emits-settle _)
        (λ config. Emits-if benchmarks _ _ (call-request _) (Emits-fail _))
  run_benchmark-request (block cmd) = with_parts-request cmd _ (λ config p. call-request _)
  run_benchmark-request (storage cmd) = Emits-after (Emits-settle _) λ config.
      Emits-if benchmarks _ _ (Emits-after (parts-request config) (λ p. call-request _))
        (Emits-fail _)
  run_benchmark-request (machine cmd) = Emits-after (Emits-settle _) (λ config. call-request _)
  run_benchmark-request (overhead cmd) = Emits-after (Emits-settle _) (λ config. Emits-fail _)
  run_benchmark-request (extrinsic cmd) = Emits-after (Emits-settle _) (λ config. Emits-fail _)

  run_subcommand-request :
      (args : List String) (cmd : Subcommand Cmd)
      → Emits request_of (command cmd ∷ []) (run_subcommand K S benchmarks args cmd)
  unfolding run_subcommand
  run_subcommand-request args (Cli.build_spec cmd) =
      Emits-after (Emits-settle _) (λ config. call-request _)
  run_subcommand-request args (Cli.check_block cmd) =
      with_parts-request cmd _ (λ config p. call-request _)
  run_subcommand-request args (Cli.export_blocks cmd) =
      with_parts-request cmd _ (λ config p. call-request _)
  run_subcommand-request args (Cli.export_state cmd) =
      with_parts-request cmd _ (λ config p. call-request _)
  run_subcommand-request args (Cli.import_blocks cmd) =
      with_parts-request cmd _ (λ config p. call-request _)
  run_subcommand-request args (Cli.revert cmd) =
      with_parts-request cmd _ (λ config p. call-request _)
  run_subcommand-request args (Cli.purge_chain cmd) =
      Emits-after (Emits-settle _)
        λ config. Emits-after (relay_chain_config-request args config) (λ polkadot. call-request _)
  run_subcommand-request args (Cli.export_genesis_head cmd) =
      with_parts-request cmd _ (λ config p. call-request _)
  run_subcommand-request args (Cli.export_genesis_wasm cmd) =
      Emits-after (Emits-settle _)
        λ config. Emits-after (Emits-embed input _ _ (Emits_lem _)) (λ spec. call-request _)
  run_subcommand-request args (Cli.benchmark cmd) = run_benchmark-request cmd

  dispatch-request :
      (cli : Cli Cmd L.RunCmd) (subcommand : Option (Subcommand Cmd))
      → Emits request_of (request subcommand ∷ []) (dispatch K S benchmarks cli subcommand)
  unfolding dispatch
  dispatch-request cli none = run_node-request cli
  dispatch-request cli (some cmd) = run_subcommand-request cli.relay_chain_args cmd

  -- A run that succeeds has performed exactly one thing: the command of its subcommand, or, without
  -- one, the start of the node's network. A run that fails has performed that or nothing.
  pub run-Requests :
      (cli : Cli Cmd L.RunCmd)
      → Emits request_of (request cli.subcommand ∷ []) (run K S benchmarks cli)
  unfolding run
  run-Requests cli = dispatch-request cli cli.subcommand
