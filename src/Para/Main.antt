-- ===== src/Para/Main.antt =====
-- challenge-3/parachain-node/src/main.rs. `run` reads the command line, which is given here.
use sub0_bangkok_challenges.Common.{Bool}
use sub0_bangkok_challenges.Para.Service.{Types, Sdk}
use sub0_bangkok_challenges.Para.Cli.{Cli}
use sub0_bangkok_challenges.Para.Command.{CliTypes, Commands, RunCli, run}

module _ {T : Types} {L : CliTypes} (K : Commands T L) (S : Sdk T) (benchmarks : Bool) where
  abbrev pub main : Cli L.Cmd L.RunCmd → RunCli K S benchmarks (Unit {0})
  main cli = run K S benchmarks cli
