-- ===== src/Para/Command/Success.antt =====
-- How a command line is answered where no call of the SDK fails.
use mathlib.Core.Option
use sub0_bangkok_challenges.Common.{
  ◌≡◌, refl, sym, subst, String, Bool, true, false, Option, none, some, [], ◌∷◌, done, failed,
  ◌>>=◌, fail, settle, if◌then◌else◌,
}
use sub0_bangkok_challenges.Common.Completes.{
  Completes, IsOk, IsDone, IsOk-map_err, Completes-lift, Completes-emit, Completes-bind,
  Completes-pure, Completes-embed, project-Completes, success,
}
use sub0_bangkok_challenges.Common.Emits.{Emits, project}
use sub0_bangkok_challenges.Node.Spec.{Extensions, try_get}
use sub0_bangkok_challenges.Node.Task.{Configuration, FilePath, is_authority}
use sub0_bangkok_challenges.Node.Cli.{
  service, input, BenchmarkCmd, pallet, block, storage, overhead, machine, extrinsic,
}
use sub0_bangkok_challenges.Para.Service.{Types, Sdk, Partial}
use sub0_bangkok_challenges.Para.Service.Calm.{GivesKey}
use sub0_bangkok_challenges.Para.Service.Success.{
  Works, new_partial-works, start_parachain_node-Completes,
}
use sub0_bangkok_challenges.Para.Cli.{Cli, Subcommand}
use sub0_bangkok_challenges.Para.Cli
use sub0_bangkok_challenges.Para.Main.{main}
use sub0_bangkok_challenges.Para.Command.Node.{settle-bind}
use sub0_bangkok_challenges.Para.Command.Runs.{request, request_of, run-Requests}
use sub0_bangkok_challenges.Para.Command.Refusals.{benchmark_refusal, refusal}
use sub0_bangkok_challenges.Para.Command.{
  CliTypes, Call, node, Commands, RunCli, call, parts, create_relay_chain, relay_chain_config,
  run_storage_benchmark, run_benchmark, run_subcommand, measure, ok_or, run_node_with, run_node,
  dispatch, run,
}

module _ {T : Types} {L : CliTypes} (K : Commands T L) (S : Sdk T) (benchmarks : Bool)
    (cli : Cli L.Cmd L.RunCmd) where
  -- No call of the command line's side fails, and a node that is run has a parachain, and a
  -- collator key if it is an authority.
  pub record CommandsWork : Type 0 where
    pub runner : (cmd : L.Cmd) → IsDone (K.create_runner cmd)
    pub performed : (c : Call T L) → IsOk (K.perform c)
    pub relay_chain :
        (config : Configuration)
        → IsOk (create_relay_chain K S benchmarks cli.relay_chain_args config)
    pub chain : (id : String) → Completes (K.load_chain id)
    pub parachain :
        (config : Configuration)
        → K.create_runner (K.normalize cli.run) ≡ done config
        → (e : Extensions) × (try_get config.chain_spec ≡ some e)
    pub collator_key :
        (config polkadot_config : Configuration) (hwbench : Option T.HwBench)
        → is_authority (S.prepare_node_config config).role ≡ true
        → GivesKey S
            (S.prepare_node_config config)
            polkadot_config
            (K.collator_options cli.run)
            hwbench

  -- It is refused with the message, without an effect, or succeeds.
  abbrev pub Answers : Option String → RunCli K S benchmarks (Unit {0}) → Type 0
  Answers (some message) m = m ≡ (failed (input message), [])
  Answers none m = Completes m

  -- It is refused with the message, without an effect, or succeeds and performs its request.
  abbrev pub Performs : Option String → RunCli K S benchmarks (Unit {0}) → Type 0
  Performs (some message) m = m ≡ (failed (input message), [])
  Performs none m = Completes m × (project request_of m.1 ≡ request cli.subcommand ∷ [])

  Answers-Performs :
      (refused : Option String) (m : RunCli K S benchmarks (Unit {0}))
      → Answers refused m
      → Emits request_of (request cli.subcommand ∷ []) m
      → Performs refused m
  Answers-Performs (some message) m h emits = h
  Answers-Performs none m h emits = (h, project-Completes m emits h)

  if-Answers :
      (b : Bool) (m : RunCli K S benchmarks (Unit {0})) (message : String)
      → Completes m
      → Answers (if b then none else some message) (if b then m else fail (input message))
  unfolding fail
  if-Answers true m message h = h
  if-Answers false m message h = refl

  module _ (k : CommandsWork) (w : Works S) where
    -- What comes after the runner has made the configuration.
    runner-Answers :
        (refused : Option String) (cmd : L.Cmd)
        (f : Configuration → RunCli K S benchmarks (Unit {0}))
        → ((config : Configuration) → Answers refused (f config))
        → Answers refused (settle (K.create_runner cmd) >>= f)
    runner-Answers refused cmd f h =
        let (config, e) = k.runner cmd in
        subst (Answers refused) (sym (settle-bind K S benchmarks _ f config e)) (h config)

    unsupported-Answers :
        (cmd : L.Cmd) (message : String)
        → Answers (some message) (settle (K.create_runner cmd) >>= λ config. fail (input message))
    unfolding fail
    unsupported-Answers cmd message = runner-Answers (some message) cmd _ (λ config. refl)

    call-works : (c : Call T L) → Completes (call K S benchmarks c)
    unfolding call
    call-works c = search (success, k.performed)

    parts-works : (config : Configuration) → Completes (parts K S benchmarks config)
    unfolding parts
    parts-works config = Completes-embed service node _ (new_partial-works S w config)

    -- A subcommand that gets the parts of a node.
    with_parts-works :
        (cmd : L.Cmd) (c : Configuration → Partial T → Call T L)
        → Completes (
            settle (K.create_runner cmd) >>= λ config.
            parts K S benchmarks config >>= λ p. call K S benchmarks (c config p))
    with_parts-works cmd c = search (success, k.runner, call-works, parts-works)

    relay_chain_config-works :
        (config : Configuration)
        → Completes (relay_chain_config K S benchmarks cli.relay_chain_args config)
    unfolding relay_chain_config
    relay_chain_config-works config = Completes-lift _ (IsOk-map_err _ _ (k.relay_chain config))

    storage-works :
        (cmd : L.Cmd) (config : Configuration)
        → Completes (run_storage_benchmark K S benchmarks cmd config)
    unfolding run_storage_benchmark
    storage-works cmd config = search (success, call-works, parts-works)

    run_benchmark-Answers :
        (cmd : BenchmarkCmd L.Cmd)
        → Answers (benchmark_refusal benchmarks cmd) (run_benchmark K S benchmarks cmd)
    unfolding run_benchmark
    run_benchmark-Answers (pallet cmd) =
        runner-Answers (benchmark_refusal benchmarks (pallet cmd)) cmd _
          (λ config. if-Answers benchmarks _ _ (call-works _))
    run_benchmark-Answers (block cmd) = with_parts-works cmd _
    run_benchmark-Answers (storage cmd) =
        runner-Answers (benchmark_refusal benchmarks (storage cmd)) cmd _
          (λ config. if-Answers benchmarks _ _ (storage-works cmd config))
    run_benchmark-Answers (machine cmd) = search (success, k.runner, call-works)
    run_benchmark-Answers (overhead cmd) = unsupported-Answers cmd _
    run_benchmark-Answers (extrinsic cmd) = unsupported-Answers cmd _

    run_subcommand-Answers :
        (cmd : Subcommand L.Cmd)
        → Answers
            (refusal benchmarks (some cmd))
            (run_subcommand K S benchmarks cli.relay_chain_args cmd)
    unfolding run_subcommand
    run_subcommand-Answers (Cli.build_spec cmd) = search (success, k.runner, call-works)
    run_subcommand-Answers (Cli.check_block cmd) = with_parts-works cmd _
    run_subcommand-Answers (Cli.export_blocks cmd) = with_parts-works cmd _
    run_subcommand-Answers (Cli.export_state cmd) = with_parts-works cmd _
    run_subcommand-Answers (Cli.import_blocks cmd) = with_parts-works cmd _
    run_subcommand-Answers (Cli.revert cmd) = with_parts-works cmd _
    run_subcommand-Answers (Cli.purge_chain cmd) =
        search (success, k.runner, call-works, relay_chain_config-works)
    run_subcommand-Answers (Cli.export_genesis_head cmd) = with_parts-works cmd _
    run_subcommand-Answers (Cli.export_genesis_wasm cmd) =
        search (success, k.runner, call-works, k.chain, Completes-embed)
    run_subcommand-Answers (Cli.benchmark cmd) = run_benchmark-Answers cmd

    measure-works : (path : Option FilePath) → Completes (measure K S benchmarks path)
    unfolding measure
    measure-works none = search success
    measure-works (some path) = search success

    para_id-works :
        (found : Option Extensions) (message : String)
        → (e : Extensions) × (found ≡ some e)
        → Completes
            (ok_or K S benchmarks (Option.map (λ (e : Extensions). e.para_id) found) message)
    unfolding ok_or
    para_id-works found message (e, eq) = rw (eq) (Completes-pure e.para_id)

    run_node_with-works :
        (config : Configuration)
        → K.create_runner (K.normalize cli.run) ≡ done config
        → Completes (run_node_with K S benchmarks cli config)
    unfolding run_node_with
    run_node_with-works config e = Completes-bind (measure-works config.database) λ measured.
        Completes-bind (para_id-works _ _ (k.parachain config e)) λ para_id.
          Completes-bind (relay_chain_config-works config) λ polkadot_config.
            Completes-bind (Completes-emit _) λ _.
              Completes-bind
                (Completes-embed service node _ (
                  start_parachain_node-Completes S w config polkadot_config _ para_id _
                    (k.collator_key config polkadot_config _)))
                (λ _. Completes-pure tt)

    run_node-works : Completes (run_node K S benchmarks cli)
    unfolding run_node
    run_node-works =
        let (config, e) = k.runner (K.normalize cli.run) in
        subst Completes
          (sym (settle-bind K S benchmarks _ (run_node_with K S benchmarks cli) config e))
          (run_node_with-works config e)

    dispatch-Answers :
        (subcommand : Option (Subcommand L.Cmd))
        → Answers (refusal benchmarks subcommand) (dispatch K S benchmarks cli subcommand)
    unfolding dispatch
    dispatch-Answers none = run_node-works
    dispatch-Answers (some cmd) = run_subcommand-Answers cmd

    -- Where no call of the SDK fails, and a node that is run has a parachain in its specification,
    -- and a collator key if it is an authority, a command line is refused, with the message of the
    -- code and without an effect, if it is a benchmark of overheads or of extrinsics, or one of
    -- pallets or of storage without the feature for these. Every other succeeds and has performed
    -- what it is for, once, and nothing else: the command of its subcommand, or, without one, the
    -- start of the network, which is the last effect of the start of the node.
    pub main-Answers : Performs (refusal benchmarks cli.subcommand) (main K S benchmarks cli)
    unfolding run
    main-Answers =
        Answers-Performs (refusal benchmarks cli.subcommand) _ (dispatch-Answers cli.subcommand)
          (run-Requests K S benchmarks cli)
