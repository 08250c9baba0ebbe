-- ===== src/Solo/ChainSpec.antt =====
-- challenge-3/solo-node/src/chain_spec.rs
pub mod Genesis
pub mod Configs
use sub0_bangkok_challenges.Common.{
  ℕ, String, ◌<>◌, Bool, true, Option, none, some, List, [], ◌∷◌, map, Act, ◌>>=◌, pure, fail, lift,
  expect, Outcome, ok, err,
}
use sub0_bangkok_challenges.Node.Json.{Json, num, array, object}
use sub0_bangkok_challenges.Node.Spec.{ChainSpec, ChainType, development, local}
use sub0_bangkok_challenges.Node.Crypto.{Crypto, Build, shl64, vec}

-- `ok_or_else(..)?`
unfoldable pub ok_or : {A : Type 0} → Option A → String → Build A
ok_or none message = fail message
ok_or (some a) message = pure a

-- Generate a crypto pair from seed.
unfoldable pub get_from_seed : {Public : Type 0} → (String → Option Public) → String → Build Public
get_from_seed from_string seed = expect (from_string ("//" <> seed)) "static values are valid; qed"

-- The seeds of the pre-funded accounts.
abbrev pub development_endowed : List String
development_endowed = "Alice" ∷ "Bob" ∷ "Alice//stash" ∷ "Bob//stash" ∷ []

abbrev pub local_endowed : List String
local_endowed =
    "Alice" ∷ "Bob" ∷ "Charlie" ∷ "Dave" ∷ "Eve" ∷ "Ferdie" ∷ "Alice//stash" ∷ "Bob//stash"
    ∷ "Charlie//stash" ∷ "Dave//stash" ∷ "Eve//stash" ∷ "Ferdie//stash" ∷ []

module _ (C : Crypto) where
  open C use {AccountId, AuraId, GrandpaId, account_json, aura_json, grandpa_json}

  unfoldable pub get_account_id_from_seed : String → Build AccountId
  unfolding get_from_seed
  get_account_id_from_seed seed = do
    public ← get_from_seed C.sr25519_from_string seed
    pure (C.into_account public)

  unfoldable pub authority_keys_from_seed : String → Build (AuraId × GrandpaId)
  unfolding get_from_seed
  authority_keys_from_seed s = do
    aura ← get_from_seed C.aura_from_string s
    grandpa ← get_from_seed C.grandpa_from_string s
    pure (aura, grandpa)

  abbrev pub balance_entry : AccountId → Json
  balance_entry k = array (account_json k ∷ num (shl64 1 60) ∷ [])

  abbrev pub grandpa_entry : AuraId × GrandpaId → Json
  grandpa_entry (_, grandpa) = array (grandpa_json grandpa ∷ num 1 ∷ [])

  abbrev pub aura_entry : AuraId × GrandpaId → Json
  aura_entry (aura, _) = aura_json aura

  -- Configure initial storage state for FRAME modules.
  unfoldable pub testnet_genesis :
      List (AuraId × GrandpaId) → AccountId → List AccountId → Bool → Json
  testnet_genesis initial_authorities root_key endowed_accounts _enable_println = object (
      ("balances", object (("balances", array (map balance_entry endowed_accounts)) ∷ []))
      ∷ ("aura", object (("authorities", array (map aura_entry initial_authorities)) ∷ []))
      ∷ ("grandpa", object (("authorities", array (map grandpa_entry initial_authorities)) ∷ []))
      ∷ ("sudo", object (("key", account_json root_key) ∷ []))
      ∷ [])

  module _ (code : String) (authorities : List (AuraId × GrandpaId)) (root : AccountId)
      (endowed : List AccountId) where
    -- What the builder makes of its arguments.
    abbrev pub development_spec : ChainSpec
    development_spec = record {
      code = code;
      extensions = none;
      name = "Development";
      id = "dev";
      chain_type = development;
      genesis_patch = testnet_genesis authorities root endowed true;
      protocol_id = none;
      properties = none;
    }

    abbrev pub local_testnet_spec : ChainSpec
    local_testnet_spec = record {
      code = code;
      extensions = none;
      name = "Local Testnet";
      id = "local_testnet";
      chain_type = local;
      genesis_patch = testnet_genesis authorities root endowed true;
      protocol_id = none;
      properties = none;
    }

  module _ (wasm_binary : Option String) where
    unfoldable pub development_config : Build ChainSpec
    development_config = do
      code ← ok_or wasm_binary "Development wasm not available"
      authorities ← vec authority_keys_from_seed ("Alice" ∷ [])
      root ← get_account_id_from_seed "Alice"
      endowed ← vec get_account_id_from_seed development_endowed
      pure (development_spec code authorities root endowed)

    unfoldable pub local_testnet_config : Build ChainSpec
    local_testnet_config = do
      code ← ok_or wasm_binary "Development wasm not available"
      authorities ← vec authority_keys_from_seed ("Alice" ∷ "Bob" ∷ [])
      root ← get_account_id_from_seed "Alice"
      endowed ← vec get_account_id_from_seed local_endowed
      pure (local_testnet_spec code authorities root endowed)
