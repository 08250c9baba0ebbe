-- ===== src/Para/Command/Outcomes.antt =====
-- How a run without a subcommand ends.
use mathlib.Core.Option
use sub0_bangkok_challenges.Common.{
  ◌≡◌, ◌∙◌, refl, ap, ℕ, String, ◌<>◌, Bool, not, Option, none, some, Result, ok, err, Outcome,
  done, failed, if◌then◌else◌, lift, embed, pure, emit, ◌>>=◌, map_err, run as act_run,
}
use sub0_bangkok_challenges.Common.Returns.{bind-done}
use sub0_bangkok_challenges.Node.Spec.{Extensions, try_get}
use sub0_bangkok_challenges.Node.Task.{Configuration, FilePath}
use sub0_bangkok_challenges.Node.Cli.{CliError, service, input}
use sub0_bangkok_challenges.Para.Service.{Types, Sdk, start_parachain_node}
use sub0_bangkok_challenges.Para.Cli.{Cli}
use sub0_bangkok_challenges.Para.Command.Node.{run-run_node_with}
use sub0_bangkok_challenges.Para.Command.{
  CliTypes, Action, node, info_is_collating, Commands, create_relay_chain, relay_chain_config,
  measure, ok_or, run_node_with, run,
}

module _ {T : Types} {L : CliTypes} (K : Commands T L) (S : Sdk T) (benchmarks : Bool)
    (cli : Cli L.Cmd L.RunCmd) (config : Configuration) where
  -- The benchmark that the node is given.
  abbrev pub hwbench_of : Option T.HwBench
  hwbench_of =
      if not cli.no_hardware_benchmarks then Option.map K.gather_hwbench config.database else none

  -- How the node ends on these two configurations.
  abbrev pub started : ℕ → Configuration → Outcome CliError (Unit {0})
  started para_id polkadot_config =
      (embed {F = Action T L} service node (
          start_parachain_node S config polkadot_config (K.collator_options cli.run) para_id
            hwbench_of)
        >>= λ _. pure tt).0

  -- With the extensions of the parachain's specification, and the relay chain's configuration.
  unfoldable pub ends :
      Option Extensions → Result CliError Configuration → Outcome CliError (Unit {0})
  ends none relay_chain = failed (input "Could not find parachain ID in chain-spec.")
  ends (some extensions) (err e) = failed (input ("Relay chain argument error: " <> K.display e))
  ends (some extensions) (ok polkadot_config) = started extensions.para_id polkadot_config

  measure-done :
      (path : Option FilePath)
      → (measure K S benchmarks path).0 ≡ done (Option.map K.gather_hwbench path)
  unfolding measure act_run
  measure-done none = refl
  measure-done (some path) = refl

  -- What comes after the measurement.
  after_measure-ends :
      (extensions : Option Extensions) (relay_chain : Result CliError Configuration) (line : String)
      → (ok_or K S benchmarks
            (Option.map (λ (e : Extensions). e.para_id) extensions)
            "Could not find parachain ID in chain-spec."
          >>= λ para_id.
              lift
                (map_err (λ e. input ("Relay chain argument error: " <> K.display e)) relay_chain)
              >>= λ polkadot_config. emit (info_is_collating line) >>= λ _.
                  embed service node (
                    start_parachain_node S config polkadot_config
                      (K.collator_options cli.run)
                      para_id
                      hwbench_of)
                  >>= λ _. pure tt).0
        ≡ ends extensions relay_chain
  unfolding ends ok_or act_run
  after_measure-ends none relay_chain line = refl
  after_measure-ends (some e) (err x) line = refl
  after_measure-ends (some e) (ok polkadot_config) line = refl

  run_node_with-ends :
      (run_node_with K S benchmarks cli config).0
      ≡ ends
          (try_get config.chain_spec)
          (create_relay_chain K S benchmarks cli.relay_chain_args config)
  unfolding run_node_with relay_chain_config
  run_node_with-ends = bind-done _ _ _ (measure-done config.database) ∙ after_measure-ends _ _ _

-- A run without a subcommand, whose runner makes the configuration, ends with an error if the chain
-- specification names no parachain or the relay chain's configuration is refused, and else as the start of the node does with that
-- parachain, its errors being service errors.
pub run-Ends :
    {T : Types} {L : CliTypes} (K : Commands T L) (S : Sdk T) (benchmarks : Bool)
    (cli : Cli L.Cmd L.RunCmd) (config : Configuration)
    → cli.subcommand ≡ none
    → K.create_runner (K.normalize cli.run) ≡ done config
    → (run K S benchmarks cli).0
      ≡ ends K S benchmarks cli config
          (try_get config.chain_spec)
          (create_relay_chain K S benchmarks cli.relay_chain_args config)
run-Ends K S benchmarks cli config en ec =
    ap (λ m. m.0) (run-run_node_with K S benchmarks cli config en ec)
    ∙ run_node_with-ends K S benchmarks cli config
