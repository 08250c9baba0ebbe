-- ===== src/Solo/Command/Success.antt =====
-- Which command lines succeed where no call of the SDK fails.
use sub0_bangkok_challenges.Common.{◌≡◌, false, Option, none, some, [], ◌∷◌, settle, embed, ◌>>=◌}
use sub0_bangkok_challenges.Common.Completes.{
  Completes, IsOk, IsDone, Completes-embed, project-Completes, success,
}
use sub0_bangkok_challenges.Common.Emits.{project}
use sub0_bangkok_challenges.Node.Task.{Configuration, NetworkBackendType}
use sub0_bangkok_challenges.Node.Cli.{service}
use sub0_bangkok_challenges.Solo.Service.{Types, Sdk, Partial, new_full}
use sub0_bangkok_challenges.Solo.Service.Success.{Works, new_partial-works, new_full-Completes}
use sub0_bangkok_challenges.Solo.Cli.{Cli, Subcommand}
use sub0_bangkok_challenges.Solo.Cli
use sub0_bangkok_challenges.Solo.Command.{
  Call, Action, node, Commands, call, parts, run_subcommand, run_node, dispatch, run,
}
use sub0_bangkok_challenges.Solo.Command.Runs.{is_benchmark, request, request_of, run-Emits}
use sub0_bangkok_challenges.Solo.Main.{main}

-- No call of the command line's side fails.
pub record CommandsWork {T : Types} {Cmd RunCmd : Type 0} (K : Commands T Cmd RunCmd) : Type 0 where
  pub runner : (cmd : Cmd) → IsDone (K.create_runner cmd)
  pub node_runner : (cmd : RunCmd) → IsDone (K.create_node_runner cmd)
  pub performed : (c : Call T Cmd) → IsOk (K.perform c)

module _ {T : Types} {Cmd RunCmd : Type 0} (K : Commands T Cmd RunCmd)
    (S : NetworkBackendType → Sdk T) (k : CommandsWork K)
    (w : (backend : NetworkBackendType) → Works (S backend)) where
  call-works : (c : Call T Cmd) → Completes (call K S c)
  unfolding call
  call-works c = search (success, k.performed)

  parts-works : (config : Configuration) → Completes (parts K S config)
  unfolding parts
  parts-works config = Completes-embed service node _ (
      new_partial-works (S config.network.network_backend) (w config.network.network_backend)
        config)

  new_full-works :
      (config : Configuration)
      → Completes {E = Action T Cmd}
          (embed service node (new_full (S config.network.network_backend) config))
  new_full-works config = Completes-embed service node _ (
      new_full-Completes (S config.network.network_backend) (w config.network.network_backend)
        config)

  run_node-works : (cmd : RunCmd) → Completes (run_node K S cmd)
  unfolding run_node
  run_node-works cmd = search (success, k.node_runner, new_full-works)

  -- A subcommand that gets the configuration, and one that gets the parts of a node.
  with_config-works :
      (cmd : Cmd) (c : Configuration → Call T Cmd)
      → Completes (settle (K.create_runner cmd) >>= λ config. call K S (c config))
  with_config-works cmd c = search (success, k.runner, call-works)

  with_parts-works :
      (cmd : Cmd) (c : Configuration → Partial T → Call T Cmd)
      → Completes (
          settle (K.create_runner cmd) >>= λ config.
          parts K S config >>= λ p. call K S (c config p))
  with_parts-works cmd c = search (success, k.runner, call-works, parts-works)

  run_subcommand-works :
      (cmd : Subcommand Cmd) → is_benchmark (some cmd) ≡ false → Completes (run_subcommand K S cmd)
  unfolding run_subcommand
  run_subcommand-works (Cli.key cmd) e = call-works _
  run_subcommand-works (Cli.build_spec cmd) e = with_config-works cmd _
  run_subcommand-works (Cli.check_block cmd) e = with_parts-works cmd _
  run_subcommand-works (Cli.export_blocks cmd) e = with_parts-works cmd _
  run_subcommand-works (Cli.export_state cmd) e = with_parts-works cmd _
  run_subcommand-works (Cli.import_blocks cmd) e = with_parts-works cmd _
  run_subcommand-works (Cli.purge_chain cmd) e = with_config-works cmd _
  run_subcommand-works (Cli.revert cmd) e = with_parts-works cmd _
  run_subcommand-works (Cli.benchmark cmd) e = cc
  run_subcommand-works (Cli.chain_info cmd) e = with_config-works cmd _

  dispatch-works :
      (cmd : RunCmd) (subcommand : Option (Subcommand Cmd))
      → is_benchmark subcommand ≡ false
      → Completes (dispatch K S cmd subcommand)
  unfolding dispatch
  dispatch-works cmd none e = run_node-works cmd
  dispatch-works cmd (some subcommand) e = run_subcommand-works subcommand e

  -- Where no call of the SDK fails, every run but the benchmark succeeds and has performed what it
  -- is for, once, and nothing else: the command of its subcommand, or, without one, the start of
  -- the network, which is the last effect of the start of the node.
  pub main-Completes :
      (cli : Cli Cmd RunCmd)
      → is_benchmark cli.subcommand ≡ false
      → Completes (main K S cli)
        × (project request_of (main K S cli).1 ≡ request cli.subcommand ∷ [])
  unfolding run
  main-Completes cli e =
      let c = dispatch-works cli.run cli.subcommand e in
      (c, project-Completes _ (run-Emits K S cli) c)
