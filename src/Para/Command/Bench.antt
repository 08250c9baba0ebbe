-- ===== src/Para/Command/Bench.antt =====
-- The hardware benchmark of a run without a subcommand, and the flag `--no-hardware-benchmarks`.
use mathlib.Core.Option
use sub0_bangkok_challenges.Common.{
  ◌≡◌, refl, Bool, not, Option, none, some, List, [], String, if◌then◌else◌, done, opt_list, sym,
  subst, run as act_run,
}
use sub0_bangkok_challenges.Common.Emits.{
  Emits, Emits-after, Emits-then, Emits-pure, Emits-lift, Emits-drop, Emits-embed, Emits-bind_ok,
  silent, project, Emits-none,
}
use sub0_bangkok_challenges.Common.Last.{project-after}
use sub0_bangkok_challenges.Common.Returns.{Returns, Returns-bind, Returns-pure}
use sub0_bangkok_challenges.Node.Task.{Configuration, FilePath}
use sub0_bangkok_challenges.Node.Cli.{service}
use sub0_bangkok_challenges.Para.Service.{Types, Sdk, start_parachain_node}
use sub0_bangkok_challenges.Para.Service.Printed.{printed, start_parachain_node-printed}
use sub0_bangkok_challenges.Para.Cli.{Cli}
use sub0_bangkok_challenges.Para.Command.Node.{run-run_node_with}
use sub0_bangkok_challenges.Para.Command.{
  CliTypes, Action, gathered, node, Commands, relay_chain_config, measure, ok_or, run_node_with,
  run,
}

module _ {T : Types} {L : CliTypes} where
  abbrev pub printed_of : Action T L → Option T.HwBench
  printed_of (node e) = printed e
  printed_of _ = none

  abbrev pub gathered_of : Action T L → Option FilePath
  gathered_of (gathered path) = some path
  gathered_of _ = none

module _ {T : Types} {L : CliTypes} (K : Commands T L) (S : Sdk T) (benchmarks : Bool) where
  ok_or-silent :
      {F A : Type 0} (p : Action T L → Option F) (o : Option A) (message : String)
      → Emits p [] (ok_or K S benchmarks o message)
  unfolding ok_or
  ok_or-silent p none message = search silent
  ok_or-silent p (some a) message = search silent

  relay_chain_config-silent :
      {F : Type 0} {p : Action T L → Option F} (args : List String) (config : Configuration)
      → Emits p [] (relay_chain_config K S benchmarks args config)
  unfolding relay_chain_config
  relay_chain_config-silent args config = Emits-lift _

  measure-printed : (path : Option FilePath) → Emits printed_of [] (measure K S benchmarks path)
  unfolding measure
  measure-printed none = search silent
  measure-printed (some path) = search silent depth 8

  measure-gathered :
      (path : Option FilePath) → project gathered_of (measure K S benchmarks path).1 ≡ opt_list path
  unfolding measure act_run
  measure-gathered none = refl
  measure-gathered (some path) = refl

  measure-Returns :
      (path : Option FilePath)
      → Returns
          (λ measured. measured ≡ Option.map K.gather_hwbench path)
          (measure K S benchmarks path)
  unfolding measure
  measure-Returns none = Returns-pure _ _ refl
  measure-Returns (some path) =
      Returns-bind _ _ (λ _. Returns-bind _ _ (λ _. Returns-pure _ _ refl))

  -- The benchmarks that the node is to print.
  abbrev pub wanted : Bool → Option FilePath → List T.HwBench
  wanted disabled path = opt_list (if not disabled then Option.map K.gather_hwbench path else none)

  module _ (cli : Cli L.Cmd L.RunCmd) (config : Configuration) where
    run_node_with-gathered :
        project gathered_of (run_node_with K S benchmarks cli config).1 ≡ opt_list config.database
    unfolding run_node_with
    run_node_with-gathered =
        project-after gathered_of _ _ _ (measure-gathered config.database) λ measured.
          Emits-after (ok_or-silent _ _ _) λ para_id.
            Emits-after (relay_chain_config-silent _ _) λ polkadot_config.
              Emits-after (Emits-drop _ refl) λ _.
                Emits-after (Emits-embed service node _ (Emits-none _ (λ _. refl) _))
                  (λ _. Emits-pure tt)

    run_node_with-printed :
        Emits printed_of
          (wanted cli.no_hardware_benchmarks config.database)
          (run_node_with K S benchmarks cli config)
    unfolding run_node_with
    run_node_with-printed = Emits-bind_ok [] _ _ (measure-printed config.database) λ measured e.
        Emits-after (ok_or-silent _ _ _) λ para_id.
          Emits-after (relay_chain_config-silent _ _) λ polkadot_config.
            Emits-after (Emits-drop _ refl) λ _.
              Emits-then
                (Emits-embed service node _ (
                  subst
                    (λ (m : Option T.HwBench).
                      Emits printed (opt_list (if not cli.no_hardware_benchmarks then m else none))
                        (start_parachain_node S config polkadot_config (K.collator_options cli.run)
                          para_id (if not cli.no_hardware_benchmarks then measured else none)))
                    ((measure-Returns config.database).holds measured e)
                    (start_parachain_node-printed S config polkadot_config _ para_id _)))
                (λ _. Emits-pure tt)

  -- A run without a subcommand, whose runner makes the configuration, measures the hardware once if
  -- the database has a path, whether or not `--no-hardware-benchmarks` is given, and however the run
  -- ends. What the flag does is that a
  -- node that starts has not printed the result; without the flag it has, once.
  pub run-Measures :
      (cli : Cli L.Cmd L.RunCmd) (config : Configuration)
      → cli.subcommand ≡ none
      → K.create_runner (K.normalize cli.run) ≡ done config
      → (project gathered_of (run K S benchmarks cli).1 ≡ opt_list config.database)
        × Emits printed_of
            (wanted cli.no_hardware_benchmarks config.database)
            (run K S benchmarks cli)
  run-Measures cli config en ec =
      let e = run-run_node_with K S benchmarks cli config en ec in
      (
        rw (e) (run_node_with-gathered cli config),
        subst (Emits printed_of (wanted cli.no_hardware_benchmarks config.database)) (sym e)
            (run_node_with-printed cli config),
      )
