-- ===== src/Para/ChainSpec.antt =====
-- challenge-3/parachain-node/src/chain_spec.rs. Parameters are the WASM binary that the build makes
-- of the runtime, and the constants of other crates.
pub mod Genesis
pub mod Configs
use sub0_bangkok_challenges.Common.{
  ℕ, String, ◌<>◌, ◌*◌, Option, none, some, List, [], ◌∷◌, map, Act, ◌>>=◌, pure, expect,
}
use sub0_bangkok_challenges.Node.Json.{Json, num, text, array, object}
use sub0_bangkok_challenges.Node.Spec.{ChainSpec, Extensions, ChainType, development, local}
use sub0_bangkok_challenges.Node.Crypto.{Crypto, Build, shl64, vec}

-- `parachain_template_runtime::EXISTENTIAL_DEPOSIT` and `xcm::prelude::XCM_VERSION`.
pub record Crates : Type 0 where
  pub existential_deposit : ℕ
  pub xcm_version : ℕ

unfoldable pub get_from_seed : {Public : Type 0} → (String → Option Public) → String → Build Public
get_from_seed from_string seed = expect (from_string ("//" <> seed)) "static values are valid; qed"

-- The chain's token and address format, for wallets.
abbrev pub properties : List (String × Json)
properties = ("tokenSymbol", text "UNIT") ∷ ("tokenDecimals", num 12) ∷ ("ss58Format", num 42) ∷ []

abbrev pub extensions : Extensions
extensions = record { relay_chain = "rococo-local"; para_id = 2000 }

-- The seeds of the collators and of the pre-funded accounts, the same in both configurations.
abbrev pub collator_seeds : List String
collator_seeds = "Alice" ∷ "Bob" ∷ []

abbrev pub endowed_seeds : List String
endowed_seeds =
    "Alice" ∷ "Bob" ∷ "Charlie" ∷ "Dave" ∷ "Eve" ∷ "Ferdie" ∷ "Alice//stash" ∷ "Bob//stash"
    ∷ "Charlie//stash" ∷ "Dave//stash" ∷ "Eve//stash" ∷ "Ferdie//stash" ∷ []

module _ (C : Crypto) (R : Crates) where
  open C use {AccountId, AuraId, account_json, aura_json}

  unfoldable pub get_collator_keys_from_seed : String → Build AuraId
  get_collator_keys_from_seed seed = get_from_seed C.aura_from_string seed

  unfoldable pub get_account_id_from_seed : String → Build AccountId
  get_account_id_from_seed seed = do
    public ← get_from_seed C.sr25519_from_string seed
    pure (C.into_account public)

  -- `runtime::SessionKeys`, as serde writes it.
  abbrev pub template_session_keys : AuraId → Json
  template_session_keys keys = object (("aura", aura_json keys) ∷ [])

  -- One element of the initial collators.
  unfoldable pub collator : String → Build (AccountId × AuraId)
  collator seed = do
    account ← get_account_id_from_seed seed
    keys ← get_collator_keys_from_seed seed
    pure (account, keys)

  abbrev pub balance_entry : AccountId → Json
  balance_entry k = array (account_json k ∷ num (shl64 1 60) ∷ [])

  -- account id, validator id, session keys
  abbrev pub session_entry : AccountId × AuraId → Json
  session_entry (acc, aura) =
      array (account_json acc ∷ account_json acc ∷ template_session_keys aura ∷ [])

  abbrev pub invulnerable_entry : AccountId × AuraId → Json
  invulnerable_entry (acc, _) = account_json acc

  unfoldable pub testnet_genesis : List (AccountId × AuraId) → List AccountId → AccountId → ℕ → Json
  testnet_genesis invulnerables endowed_accounts root id = object (
      ("balances", object (("balances", array (map balance_entry endowed_accounts)) ∷ []))
      ∷ ("parachainInfo", object (("parachainId", num id) ∷ []))
      ∷ (
        "collatorSelection",
        object (
            ("invulnerables", array (map invulnerable_entry invulnerables))
            ∷ ("candidacyBond", num (R.existential_deposit * 16))
            ∷ []),
      )
      ∷ ("session", object (("keys", array (map session_entry invulnerables)) ∷ []))
      ∷ ("polkadotXcm", object (("safeXcmVersion", num R.xcm_version) ∷ []))
      ∷ ("sudo", object (("key", account_json root) ∷ []))
      ∷ [])

  module _ (code : String) (collators : List (AccountId × AuraId)) (endowed : List AccountId)
      (root : AccountId) where
    -- What the builder makes of its arguments. `development_config` makes `properties` too, and
    -- does not give them to the builder.
    abbrev pub development_spec : ChainSpec
    development_spec = record {
      code = code;
      extensions = some extensions;
      name = "Development";
      id = "dev";
      chain_type = development;
      genesis_patch = testnet_genesis collators endowed root 2000;
      protocol_id = none;
      properties = none;
    }

    abbrev pub local_testnet_spec : ChainSpec
    local_testnet_spec = record {
      code = code;
      extensions = some extensions;
      name = "Local Testnet";
      id = "local_testnet";
      chain_type = local;
      genesis_patch = testnet_genesis collators endowed root 2000;
      protocol_id = some "template-local";
      properties = some properties;
    }

  module _ (wasm_binary : Option String) where
    unfoldable pub development_config : Build ChainSpec
    development_config = do
      code ← expect wasm_binary "WASM binary was not built, please build it!"
      collators ← vec collator collator_seeds
      endowed ← vec get_account_id_from_seed endowed_seeds
      root ← get_account_id_from_seed "Alice"
      pure (development_spec code collators endowed root)

    unfoldable pub local_testnet_config : Build ChainSpec
    local_testnet_config = do
      code ← expect wasm_binary "WASM binary was not built, please build it!"
      collators ← vec collator collator_seeds
      endowed ← vec get_account_id_from_seed endowed_seeds
      root ← get_account_id_from_seed "Alice"
      pure (local_testnet_spec code collators endowed root)
