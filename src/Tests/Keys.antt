-- ===== src/Tests/Keys.antt =====
-- The built-in chain specifications, for keys that are their own derivation.
use sub0_bangkok_challenges.Common.{
  String, none, some, List, [], ◌∷◌, ◌≡◌, refl, Result, err, All, lift, arith,
}
use sub0_bangkok_challenges.Node.Json.{text}
use sub0_bangkok_challenges.Node.Crypto.{Crypto}
use sub0_bangkok_challenges.Node.Spec.{ChainSpec}
use sub0_bangkok_challenges.Solo.ChainSpec as SoloChainSpec
use sub0_bangkok_challenges.Solo.ChainSpec.Configs.{Derives, DerivesAuthority}
use sub0_bangkok_challenges.Solo.Command as SoloCommand
use sub0_bangkok_challenges.Para.Command as ParaCommand
use sub0_bangkok_challenges.Solo.Command.Specs as SoloSpecs
use sub0_bangkok_challenges.Para.ChainSpec.{Crates}
use sub0_bangkok_challenges.Para.ChainSpec.Genesis.{HasSmallDeposit}
use sub0_bangkok_challenges.Para.ChainSpec as ParaChainSpec
use sub0_bangkok_challenges.Para.ChainSpec.Configs.{
  DerivesAccount, DerivesCollator, BuildsParachain, AgreesOnToken,
  development_config-BuildsParachain, local_testnet_config-BuildsParachain,
}
use sub0_bangkok_challenges.Para.Command.Specs as ParaSpecs

-- A key is the text that it is derived from.
abbrev pub crypto : Crypto
crypto = record {
  AccountId = String;
  Sr25519 = String;
  AuraId = String;
  GrandpaId = String;
  sr25519_from_string = λ s. some s;
  aura_from_string = λ s. some s;
  grandpa_from_string = λ s. some s;
  into_account = λ k. k;
  account_json = λ k. text k;
  aura_json = λ k. text k;
  grandpa_json = λ k. text k;
}

derives : (seeds : List String) → All (Derives crypto) seeds
derives [] = tt
derives (s ∷ seeds) = ((_, refl), derives seeds)

derives_authority : (seeds : List String) → All (DerivesAuthority crypto) seeds
derives_authority [] = tt
derives_authority (s ∷ seeds) = ((_, _, refl, refl), derives_authority seeds)

-- The deposit is a MILLIUNIT.
abbrev pub crates : Crates
crates = record { existential_deposit = 1_000_000_000; xcm_version = 4 }

pub crates-HasSmallDeposit : HasSmallDeposit crates
crates-HasSmallDeposit = omega arith

pub derives_account : (seeds : List String) → All (DerivesAccount crypto crates) seeds
derives_account [] = tt
derives_account (s ∷ seeds) = ((_, refl), derives_account seeds)

pub derives_collator : (seeds : List String) → All (DerivesCollator crypto crates) seeds
derives_collator [] = tt
derives_collator (s ∷ seeds) = ((_, refl), derives_collator seeds)

no_files : String → Result String ChainSpec
no_files path = err "no such file"

-- No file is there: the built-in ids load all the same.
load_spec-ById_example :
    SoloSpecs.Loads crypto no_files "wasm" "dev" "dev"
    × SoloSpecs.Loads crypto no_files "wasm" "" "local_testnet"
    × SoloSpecs.Loads crypto no_files "wasm" "local" "local_testnet"
    × (SoloCommand.load_spec crypto none no_files "spec.json" ≡ lift (no_files "spec.json"))
load_spec-ById_example =
    SoloSpecs.load_spec-ById crypto no_files (derives SoloChainSpec.local_endowed)
      (derives_authority ("Alice" ∷ "Bob" ∷ [])) "wasm" "spec.json" none refl

development_config-BuildsParachain_example :
    BuildsParachain crypto crates "dev"
      (λ spec. spec.properties ≡ none)
      (ParaChainSpec.development_config crypto crates)
      "wasm"
development_config-BuildsParachain_example =
    development_config-BuildsParachain crypto crates crates-HasSmallDeposit
      (derives_account ParaChainSpec.endowed_seeds) (derives_collator ParaChainSpec.collator_seeds)
      "wasm"

local_testnet_config-BuildsParachain_example :
    BuildsParachain crypto crates "local_testnet"
      (AgreesOnToken crypto crates)
      (ParaChainSpec.local_testnet_config crypto crates)
      "wasm"
local_testnet_config-BuildsParachain_example =
    local_testnet_config-BuildsParachain crypto crates crates-HasSmallDeposit
      (derives_account ParaChainSpec.endowed_seeds) (derives_collator ParaChainSpec.collator_seeds)
      "wasm"

load_spec-Loads_example :
    ParaSpecs.Loads crypto crates no_files "wasm" "dev" "dev"
    × ParaSpecs.Loads crypto crates no_files "wasm" "template-rococo" "local_testnet"
    × ParaSpecs.Loads crypto crates no_files "wasm" "" "local_testnet"
    × ParaSpecs.Loads crypto crates no_files "wasm" "local" "local_testnet"
    × (ParaCommand.load_spec crypto crates none no_files "spec.json" ≡ lift (no_files "spec.json"))
load_spec-Loads_example =
    ParaSpecs.load_spec-Loads crypto crates no_files crates-HasSmallDeposit
      (derives_account ParaChainSpec.endowed_seeds) (derives_collator ParaChainSpec.collator_seeds)
      "wasm" "spec.json" none refl
