-- ===== src/Para/Command/Refusals.antt =====
-- The subcommands that the parachain's node refuses.
use sub0_bangkok_challenges.Common.{String, Bool, Option, none, some, if◌then◌else◌}
use sub0_bangkok_challenges.Node.Cli.{
  BenchmarkCmd, pallet, block, storage, overhead, machine, extrinsic,
}
use sub0_bangkok_challenges.Para.Cli.{Subcommand}
use sub0_bangkok_challenges.Para.Cli

-- The message of a benchmark that is refused: two are of another program, and two need the feature.
abbrev pub benchmark_refusal : {Cmd : Type 0} → Bool → BenchmarkCmd Cmd → Option String
benchmark_refusal benchmarks (pallet _) =
    if benchmarks
    then none
    else some
        "Benchmarking wasn't enabled when building the node. You can enable it with `--features runtime-benchmarks`."
benchmark_refusal benchmarks (block _) = none
benchmark_refusal benchmarks (storage _) =
    if benchmarks
    then none
    else some "Compile with --features=runtime-benchmarks to enable storage benchmarks."
benchmark_refusal benchmarks (machine _) = none
benchmark_refusal benchmarks (overhead _) = some "Benchmarking sub-command unsupported"
benchmark_refusal benchmarks (extrinsic _) = some "Benchmarking sub-command unsupported"

abbrev pub refusal : {Cmd : Type 0} → Bool → Option (Subcommand Cmd) → Option String
refusal benchmarks (some (Cli.benchmark cmd)) = benchmark_refusal benchmarks cmd
refusal benchmarks _ = none
