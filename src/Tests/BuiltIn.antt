-- ===== src/Tests/BuiltIn.antt =====
-- A node that is run on the local testnet.
use sub0_bangkok_challenges.Common.{
  String, ◌<>◌, false, some, [], map, err, ◌≡◌, refl, done, Result, run,
}
use sub0_bangkok_challenges.Node.Spec.{ChainSpec}
use sub0_bangkok_challenges.Node.Crypto.{vec}
use sub0_bangkok_challenges.Node.Task.{Configuration}
use sub0_bangkok_challenges.Para.ChainSpec.{
  get_from_seed, get_account_id_from_seed, get_collator_keys_from_seed, collator, endowed_seeds,
  collator_seeds, local_testnet_spec, local_testnet_config,
}
use sub0_bangkok_challenges.Para.Command.{load_spec, Commands}
use sub0_bangkok_challenges.Para.Main.{main}
use sub0_bangkok_challenges.Para.Command.BuiltIn.{EndsForGenesis, IsBuiltIn, main-EndsForGenesis}
use sub0_bangkok_challenges.Common.Panics.{NeverPanics}
use sub0_bangkok_challenges.Para.Command.Calm.{IsEquipped, main-NeverPanics}
use sub0_bangkok_challenges.Tests.Keys.{
  crypto, crates, crates-HasSmallDeposit, derives_account, derives_collator,
}
use sub0_bangkok_challenges.Tests.Settings.{config_of_authority}
use sub0_bangkok_challenges.Tests.Commands.{cli_types, para_commands, without_benchmarks}
use sub0_bangkok_challenges.Tests.ParaNode as ParaNode

-- The keys are derived from `//` and the seed.
abbrev key : String → String
key seed = "//" <> seed

abbrev local_spec : ChainSpec
local_spec =
    local_testnet_spec crypto crates "wasm" (map (λ s. (key s, key s)) collator_seeds)
      (map key endowed_seeds) (key "Alice")

abbrev local_config : Configuration
local_config = record config_of_authority { chain_spec = local_spec }

abbrev local_commands : Commands ParaNode.types cli_types
local_commands = record para_commands { create_runner = λ cmd. done local_config }

no_files : String → Result String ChainSpec
no_files id = err "no such file"

load_local : load_spec crypto crates (some "wasm") no_files "local" ≡ (done local_spec, [])
unfolding load_spec local_testnet_config vec collator get_account_id_from_seed get_from_seed
    get_collator_keys_from_seed run
load_local = refl

local_spec-IsBuiltIn :
    IsBuiltIn local_commands ParaNode.sdk false without_benchmarks local_config crypto crates
      no_files "wasm" "local"
local_spec-IsBuiltIn = record {
  no_subcommand = refl;
  runner_ok = refl;
  deposit_small = crates-HasSmallDeposit;
  accounts = derives_account endowed_seeds;
  collator_keys = derives_collator collator_seeds;
  id_known = refl;
  loaded = load_local;
}

main-EndsForGenesis_example :
    EndsForGenesis local_commands ParaNode.sdk false without_benchmarks local_config crates
      (main local_commands ParaNode.sdk false without_benchmarks).0
main-EndsForGenesis_example =
    main-EndsForGenesis local_commands ParaNode.sdk false without_benchmarks local_config crypto
      crates no_files "wasm" "local" local_spec-IsBuiltIn

-- The same loading of chain specifications for `export-genesis-wasm`.
abbrev equipped_commands : Commands ParaNode.types cli_types
equipped_commands = record para_commands {
  load_chain = load_spec crypto crates (some "wasm") no_files;
}

equipped_commands-IsEquipped :
    IsEquipped equipped_commands ParaNode.sdk false without_benchmarks crypto crates no_files "wasm"
equipped_commands-IsEquipped = record {
  load_chain_eq = λ id. refl;
  runner_calm = λ h cmd s e. cc;
  accounts = derives_account endowed_seeds;
  collator_keys = derives_collator collator_seeds;
  collator_key =
      λ config polkadot_config hwbench e. ParaNode.sdk-GivesKey config polkadot_config 0 hwbench;
}

main-NeverPanics_example :
    NeverPanics (main equipped_commands ParaNode.sdk false without_benchmarks)
main-NeverPanics_example =
    main-NeverPanics equipped_commands ParaNode.sdk false without_benchmarks crypto crates no_files
      "wasm" equipped_commands-IsEquipped
