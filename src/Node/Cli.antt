-- ===== src/Node/Cli.antt =====
-- Command lines: the errors of `sc_cli`, and the benchmark commands of `frame_benchmarking_cli`.
use sub0_bangkok_challenges.Common.{ℕ, String}
use sub0_bangkok_challenges.Node.Task.{ServiceError}

-- `sc_cli::Error`: a service error, a text (`From<&str>` and `From<String>`), and the SDK's others.
pub data CliError : Type 0 where
  service : ServiceError → CliError
  input : String → CliError
  other : String → CliError

-- `BenchmarkCmd`, with the command's own settings.
pub data BenchmarkCmd (Cmd : Type 0) : Type 0 where
  pallet block storage overhead machine extrinsic : Cmd → BenchmarkCmd Cmd

-- What `SubstrateCli` tells of a program.
pub record About : Type 0 where
  pub impl_name : String
  pub impl_version : String
  pub description : String
  pub author : String
  pub support_url : String
  pub copyright_start_year : ℕ
