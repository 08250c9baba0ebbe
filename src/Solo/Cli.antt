-- ===== src/Solo/Cli.antt =====
-- challenge-3/solo-node/src/cli.rs. `Cmd` stands for the SDK's types of commands, and `RunCmd` for
-- the options of a run without a subcommand.
use sub0_bangkok_challenges.Common.{Option, String}
use sub0_bangkok_challenges.Node.Cli.{BenchmarkCmd, About}

pub data Subcommand (Cmd : Type 0) : Type 0 where
  key : Cmd → Subcommand Cmd
  build_spec : Cmd → Subcommand Cmd
  check_block : Cmd → Subcommand Cmd
  export_blocks : Cmd → Subcommand Cmd
  export_state : Cmd → Subcommand Cmd
  import_blocks : Cmd → Subcommand Cmd
  purge_chain : Cmd → Subcommand Cmd
  revert : Cmd → Subcommand Cmd
  benchmark : BenchmarkCmd Cmd → Subcommand Cmd
  chain_info : Cmd → Subcommand Cmd

pub record Cli (Cmd RunCmd : Type 0) : Type 0 where
  pub subcommand : Option (Subcommand Cmd)
  pub run : RunCmd

-- `SubstrateCli` in command.rs; the version, the description and the authors come from the build.
unfoldable pub about : (impl_version description authors : String) → About
about impl_version description authors = record {
  impl_name = "Substrate Node";
  impl_version = impl_version;
  description = description;
  author = authors;
  support_url = "support.anonymous.an";
  copyright_start_year = 2017;
}
