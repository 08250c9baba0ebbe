-- ===== src/Para/Command/Node.antt =====
-- A run without a subcommand is a run of the node.
use sub0_bangkok_challenges.Common.{
  ◌≡◌, ◌∙◌, refl, ap, Bool, none, Outcome, done, settle, ◌>>=◌, run as act_run,
}
use sub0_bangkok_challenges.Node.Task.{Configuration}
use sub0_bangkok_challenges.Node.Cli.{CliError}
use sub0_bangkok_challenges.Para.Service.{Types, Sdk}
use sub0_bangkok_challenges.Para.Cli.{Cli}
use sub0_bangkok_challenges.Para.Command.{
  CliTypes, Commands, RunCli, run_node_with, run_node, dispatch, run,
}

module _ {T : Types} {L : CliTypes} (K : Commands T L) (S : Sdk T) (benchmarks : Bool) where
  pub settle-bind :
      {A B : Type 0} (r : Outcome CliError A) (f : A → RunCli K S benchmarks B) (a : A)
      → r ≡ done a
      → settle r >>= f ≡ f a
  unfolding act_run
  settle-bind r f a e = rw (e) refl

  pub run-run_node_with :
      (cli : Cli L.Cmd L.RunCmd) (config : Configuration)
      → cli.subcommand ≡ none
      → K.create_runner (K.normalize cli.run) ≡ done config
      → run K S benchmarks cli ≡ run_node_with K S benchmarks cli config
  unfolding run dispatch run_node
  run-run_node_with cli config en ec =
      ap (dispatch K S benchmarks cli) en
      ∙ settle-bind _ (run_node_with K S benchmarks cli) config ec
