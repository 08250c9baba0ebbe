-- ===== src/Lib.antt =====
-- A verification library for the Rust code of this repository: the light client of challenge-1 and
-- the blockchain of challenge-3, which is a runtime, a solochain node that runs it, and a
-- parachain node.
--
-- The parts and the files that model them:
--
--   challenge-1/src/main.rs. A light client subscribes to the finalized blocks of two chains,
--   merges the streams and prints each block. LightClient has `main` and its loop, `print_blocks`;
--   LightClient/Merge states what the merge promises, LightClient/Order and LightClient/Complete
--   what is printed. There the streams are lists; LightClient/Rounds has the same program,
--   `main_rounds`, over subscriptions that may never end, with what they yield in Streams, what is
--   printed in Account, Program, Complete and Fair, the end of the loop in Termination, and the
--   join of the two models in Listed.
--
--   challenge-3/runtime/src. lib.rs and configs/mod.rs: Runtime/Constants has the constants,
--   Runtime/Configs the configurations of the pallets, Runtime/Limits the limits of a block,
--   Runtime/Fees the polynomial of `WeightToFee`, Runtime/Extensions the signed extensions, and
--   Runtime/Pallets the pallets with their indices. weights: Runtime/Weights, with their tests in
--   Runtime/Weights/Sane. build.rs: Runtime/Build. configs/xcm.rs: Runtime/Xcm has the barrier and
--   the predicate for free execution, Runtime/Xcm/Configs the configurations. apis.rs and
--   benchmarks.rs: Runtime/Apis, with the functions in Chain, Consensus, Queries and Benchmarks,
--   and what they call in Calls.
--
--   challenge-3/solo-node/src. Solo/ChainSpec is chain_spec.rs; Solo/Cli and Solo/Command are
--   cli.rs and command.rs; Solo/Service is service.rs, with the SDK's side in Calls, `new_partial`
--   in Setup and `new_full` in Full.
--
--   challenge-3/parachain-node/src. Para/ChainSpec, Para/Cli, Para/Command and Para/Service alike,
--   with `new_partial`, `build_import_queue` and `start_consensus` in Para/Service/Setup and
--   `start_parachain_node` in Para/Service/Start.
--
--   Node is what the two nodes share: the configuration, errors and tasks (Node/Task), chain
--   specifications (Node/Spec), their JSON (Node/Json, and Node/Genesis for reading it back), keys
--   (Node/Crypto), and errors and texts of the command line (Node/Cli). rpc.rs of the solochain's
--   node is Node/Rpc, that of the parachain's is Para/Rpc. build.rs of both is Node/Build, and
--   main.rs is Solo/Main and Para/Main.
--
-- How the parts interact. command.rs reads the command line; it loads a chain specification, runs
-- a subcommand over the parts that `new_partial` builds, or starts the node of service.rs.
-- service.rs makes the RPC server of rpc.rs, and spawns tasks on the SDK's task manager. The chain
-- specifications describe the genesis of the runtime, with its constants and pallets. The node
-- calls the runtime through its APIs; Solo/Service/OnRuntime joins the two for the slot duration.
-- Solo/Service/Served and Para/Service/Served join service.rs and rpc.rs, and
-- Para/Command/BuiltIn, Para/Command/Calm and Para/Command/Success join the command line, the
-- chain specifications and the service, as Solo/Command/Success does. The settings of the relay
-- chain that a parachain's node embeds are in Para/Cli/Settings.
--
-- The SDK (Substrate, Cumulus, subxt) is a parameter. In each component a record `Types` has the
-- types that the code only passes on, and a record `Sdk` or `Commands` the calls, each with the
-- result that the SDK chooses. What a theorem needs of them is a named hypothesis: `Works`,
-- `CommandsWork`, `HasGenesis`, `RunnersReturn`, `GivesKey`, `Derives`, `Selects`, `IsSelect`,
-- `EndsWithin`, `EndsAfter`, `NeverFails`, `IsFair`, `IsScale`, `IsBuiltIn`, `IsEquipped`,
-- `HasSmallDeposit`, `IsMerge`, `IsFromRational`, `IsLinear`, `IsSound`, `SkipsOthers` and
-- `AnswersFrom`. A call of the runtime APIs has the state of the chain before and after it.
--
-- Code with effects is `Act` of Common/Actions: a log of effects in their order, and an outcome,
-- which is a value, an error that `?` passed on, or a panic. The task manager is the log: an event
-- for each task that is spawned, and one for each call of the SDK that is lent a spawn handle,
-- whose own tasks are not known here. Clones, reference counts and boxes are the value itself; an
-- `await` waits for its result. `Emits` of Common/Emits says of code what a projection of its log
-- is when it succeeds, and that it is a beginning of this when it does not; Common/Last says what
-- comes last, and Common/Panics and Common/Completes that code does not panic and that it
-- succeeds. A runner of the command line calls `load_spec` of the code, which may panic, so
-- `create_runner` has an outcome in the place of a result; what is asked of it is in
-- `RunnersReturn` and `IsEquipped`. The constants of crates that are not in the repository, the
-- deposit of the template's runtime and the version of XCM, are `Crates` of Para/ChainSpec.
-- Arguments that are constants of the SDK, such as `Default::default()`, are left out.
--
-- Bounds. The loops are recursion on lists, but for the rounds of the light client: a subscription
-- may never end, and `rounds` has a limit. What is printed is known for every limit; if the
-- subscriptions end, more rounds than they have items are enough, and a larger limit gives the
-- same run; if they go on for ever, each block has some number of rounds that is enough for it. A
-- balance is a natural number, and `u64` is written out where the code shifts, and in the tests of
-- the weights.
--
-- Not modelled: challenge-2, which is TypeScript; types of the SDK that the configurations only
-- name. configs/xcm.rs is modelled though the line of configs/mod.rs that includes it is a
-- comment. A logged line is an event only where a theorem speaks of it.
pub mod Common
pub mod Node
pub mod Runtime
pub mod LightClient
pub mod Solo
pub mod Para
pub mod Tests
