-- ===== src/Para/Command/Calm.antt =====
-- No command line makes the parachain's node panic.
use sub0_bangkok_challenges.Common.{
  ◌≡◌, sym, subst, All, Result, String, Bool, true, false, Option, none, some, ◌>>=◌, fail, settle,
  ◌≢◌, panicked, if◌then◌else◌,
}
use sub0_bangkok_challenges.Common.Panics.{
  NeverPanics, NeverPanics-bind, NeverPanics-pure, NeverPanics-lift, NeverPanics-settle,
  NeverPanics-emit, NeverPanics-fail, NeverPanics-embed, calm_rules,
}
use sub0_bangkok_challenges.Node.Spec.{ChainSpec}
use sub0_bangkok_challenges.Node.Crypto.{Crypto}
use sub0_bangkok_challenges.Para.ChainSpec.{Crates, collator_seeds, endowed_seeds}
use sub0_bangkok_challenges.Para.ChainSpec.Configs.{DerivesAccount, DerivesCollator}
use sub0_bangkok_challenges.Para.Command.BuiltIn.{load_spec-NeverPanics}
use sub0_bangkok_challenges.Node.Task.{Configuration, FilePath, is_authority}
use sub0_bangkok_challenges.Node.Cli.{
  CliError, service, BenchmarkCmd, pallet, block, storage, overhead, machine, extrinsic,
}
use sub0_bangkok_challenges.Para.Service.{Types, Sdk, Partial}
use sub0_bangkok_challenges.Para.Service.Calm.{
  GivesKey, new_partial-calm, start_parachain_node-NeverPanics,
}
use sub0_bangkok_challenges.Para.Cli.{Cli, Subcommand}
use sub0_bangkok_challenges.Para.Cli
use sub0_bangkok_challenges.Para.Main.{main}
use sub0_bangkok_challenges.Para.Command.{
  CliTypes, Call, Action, node, load_spec, Commands, RunCli, call, parts, relay_chain_config,
  run_storage_benchmark, run_benchmark, run_subcommand, measure, ok_or, run_node_with, run_node,
  dispatch, run,
}

module _ {T : Types} {L : CliTypes} (K : Commands T L) (S : Sdk T) (benchmarks : Bool)
    (cli : Cli L.Cmd L.RunCmd) (C : Crypto) (R : Crates)
    (from_json_file : String → Result String ChainSpec) (code : String) where
  -- Chain specifications are loaded with the WASM binary at hand and seeds that derive keys, and
  -- the relay chain interface of an authority comes with a collator key.
  pub record IsEquipped : Type 0 where
    pub load_chain_eq :
        (id : String) → K.load_chain id ≡ load_spec C R (some code) from_json_file id
    -- the runner panics at most where loading a chain specification does
    pub runner_calm :
        ((id : String) → NeverPanics (K.load_chain id))
        → (cmd : L.Cmd) (s : String) → K.create_runner cmd ≢ panicked s
    pub accounts : All (DerivesAccount C R) endowed_seeds
    pub collator_keys : All (DerivesCollator C R) collator_seeds
    pub collator_key :
        (config polkadot_config : Configuration) (hwbench : Option T.HwBench)
        → is_authority (S.prepare_node_config config).role ≡ true
        → GivesKey S
            (S.prepare_node_config config)
            polkadot_config
            (K.collator_options cli.run)
            hwbench

  module _ (k : IsEquipped) where
    load_chain-calm : (id : String) → NeverPanics (K.load_chain id)
    load_chain-calm id =
        subst NeverPanics (sym (k.load_chain_eq id))
          (load_spec-NeverPanics C R from_json_file code k.accounts k.collator_keys id)

    runner-calm : (cmd : L.Cmd) → NeverPanics {E = Action T L} (settle (K.create_runner cmd))
    runner-calm cmd = NeverPanics-settle _ (k.runner_calm load_chain-calm cmd)

    call-calm : (c : Call T L) → NeverPanics (call K S benchmarks c)
    unfolding call
    call-calm c = search calm_rules

    parts-calm : (config : Configuration) → NeverPanics (parts K S benchmarks config)
    unfolding parts
    parts-calm config = NeverPanics-embed service node _ (new_partial-calm S config)

    -- A subcommand that gets the parts of a node.
    with_parts-calm :
        (cmd : L.Cmd) (c : Configuration → Partial T → Call T L)
        → NeverPanics (
            settle (K.create_runner cmd) >>= λ config.
            parts K S benchmarks config >>= λ p. call K S benchmarks (c config p))
    with_parts-calm cmd c = search (calm_rules, runner-calm, call-calm, parts-calm)

    relay_chain_config-calm :
        (config : Configuration)
        → NeverPanics (relay_chain_config K S benchmarks cli.relay_chain_args config)
    unfolding relay_chain_config
    relay_chain_config-calm config = NeverPanics-lift _

    storage-calm :
        (cmd : L.Cmd) (config : Configuration)
        → NeverPanics (run_storage_benchmark K S benchmarks cmd config)
    unfolding run_storage_benchmark
    storage-calm cmd config = search (calm_rules, call-calm, parts-calm)

    if-calm :
        (b : Bool) (m : RunCli K S benchmarks (Unit {0})) (e : CliError)
        → NeverPanics m
        → NeverPanics (if b then m else fail e)
    if-calm true m e h = h
    if-calm false m e h = NeverPanics-fail e

    run_benchmark-calm : (cmd : BenchmarkCmd L.Cmd) → NeverPanics (run_benchmark K S benchmarks cmd)
    unfolding run_benchmark
    run_benchmark-calm (pallet cmd) =
        NeverPanics-bind (runner-calm _) (λ config. if-calm benchmarks _ _ (call-calm _))
    run_benchmark-calm (block cmd) = with_parts-calm cmd _
    run_benchmark-calm (storage cmd) =
        NeverPanics-bind (runner-calm _)
          (λ config. if-calm benchmarks _ _ (storage-calm cmd config))
    run_benchmark-calm (machine cmd) = search (calm_rules, runner-calm, call-calm)
    run_benchmark-calm (overhead cmd) = search (calm_rules, runner-calm)
    run_benchmark-calm (extrinsic cmd) = search (calm_rules, runner-calm)

    run_subcommand-calm :
        (cmd : Subcommand L.Cmd)
        → NeverPanics (run_subcommand K S benchmarks cli.relay_chain_args cmd)
    unfolding run_subcommand
    run_subcommand-calm (Cli.build_spec cmd) = search (calm_rules, runner-calm, call-calm)
    run_subcommand-calm (Cli.check_block cmd) = with_parts-calm cmd _
    run_subcommand-calm (Cli.export_blocks cmd) = with_parts-calm cmd _
    run_subcommand-calm (Cli.export_state cmd) = with_parts-calm cmd _
    run_subcommand-calm (Cli.import_blocks cmd) = with_parts-calm cmd _
    run_subcommand-calm (Cli.revert cmd) = with_parts-calm cmd _
    run_subcommand-calm (Cli.purge_chain cmd) =
        search (calm_rules, runner-calm, call-calm, relay_chain_config-calm)
    run_subcommand-calm (Cli.export_genesis_head cmd) = with_parts-calm cmd _
    run_subcommand-calm (Cli.export_genesis_wasm cmd) =
        search (calm_rules, runner-calm, call-calm, load_chain-calm, NeverPanics-embed)
    run_subcommand-calm (Cli.benchmark cmd) = run_benchmark-calm cmd

    measure-calm : (path : Option FilePath) → NeverPanics (measure K S benchmarks path)
    unfolding measure
    measure-calm none = search calm_rules
    measure-calm (some path) = search calm_rules

    ok_or-calm :
        {A : Type 0} (found : Option A) (message : String)
        → NeverPanics (ok_or K S benchmarks found message)
    unfolding ok_or
    ok_or-calm none message = NeverPanics-fail _
    ok_or-calm (some a) message = NeverPanics-pure a

    run_node_with-calm :
        (config : Configuration) → NeverPanics (run_node_with K S benchmarks cli config)
    unfolding run_node_with
    run_node_with-calm config = NeverPanics-bind (measure-calm config.database) λ measured.
        NeverPanics-bind (ok_or-calm _ _) λ para_id.
          NeverPanics-bind (relay_chain_config-calm config) λ polkadot_config.
            NeverPanics-bind (NeverPanics-emit _) λ _.
              NeverPanics-bind
                (NeverPanics-embed service node _ (
                  start_parachain_node-NeverPanics S config polkadot_config _ para_id _
                    (k.collator_key config polkadot_config _)))
                (λ _. NeverPanics-pure tt)

    run_node-calm : NeverPanics (run_node K S benchmarks cli)
    unfolding run_node
    run_node-calm = NeverPanics-bind (runner-calm _) run_node_with-calm

    dispatch-calm :
        (subcommand : Option (Subcommand L.Cmd))
        → NeverPanics (dispatch K S benchmarks cli subcommand)
    unfolding dispatch
    dispatch-calm none = run_node-calm
    dispatch-calm (some cmd) = run_subcommand-calm cmd

    -- With the WASM binary at hand, seeds that derive keys, a runner that panics at most where
    -- loading a chain specification does, and a collator key that comes with the relay chain
    -- interface of an authority, no command line makes the parachain's node panic, whatever else
    -- the calls of the SDK return.
    pub main-NeverPanics : NeverPanics (main K S benchmarks cli)
    unfolding run
    main-NeverPanics = dispatch-calm cli.subcommand
