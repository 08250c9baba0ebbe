-- ===== src/Solo/Main.antt =====
-- challenge-3/solo-node/src/main.rs. `run` reads the command line, which is given here.
use sub0_bangkok_challenges.Node.Task.{NetworkBackendType}
use sub0_bangkok_challenges.Solo.Service.{Types, Sdk}
use sub0_bangkok_challenges.Solo.Cli.{Cli}
use sub0_bangkok_challenges.Solo.Command.{Commands, RunCli, run}

module _ {T : Types} {Cmd RunCmd : Type 0} (K : Commands T Cmd RunCmd)
    (S : NetworkBackendType → Sdk T) where
  abbrev pub main : Cli Cmd RunCmd → RunCli K S (Unit {0})
  main cli = run K S cli
