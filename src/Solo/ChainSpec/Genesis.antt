-- ===== src/Solo/ChainSpec/Genesis.antt =====
-- The genesis patch of the solochain against the runtime.
use mathlib.Core.Option
use sub0_bangkok_challenges.Common.{
  ℕ, ◌+◌, ◌^◌, ◌≤◌, ◌<◌, String, Bool, some, List, ◌∷◌, map, ◌≡◌, refl, arith, length, length-map,
  All,
}
use sub0_bangkok_challenges.Node.Json.{Json, keys, get, array}
use sub0_bangkok_challenges.Node.Crypto.{Crypto}
use sub0_bangkok_challenges.Node.Genesis.{
  IsFunded, read_balances, read_list-array, total_issuance-map, All-map,
}
use sub0_bangkok_challenges.Runtime.Pallets.{Pallet, balances, aura, grandpa, sudo, genesis_key}
use sub0_bangkok_challenges.Runtime.Constants.{existential_deposit}
use sub0_bangkok_challenges.Runtime.Configs.{aura_config, grandpa_config}
use sub0_bangkok_challenges.Solo.ChainSpec.{testnet_genesis, aura_entry, grandpa_entry}

-- The key names a pallet of the runtime that has a configuration in the genesis.
abbrev pub IsKnown : String → Type 0
IsKnown key = (p : Pallet) × (genesis_key p ≡ some key)

-- The authorities of both consensus pallets are as many as are given, and within the pallets'
-- limits.
pub record FitsLimits (authorities : ℕ) (patch : Json) : Type 0 where
  pub aura_authorities : List Json
  pub aura_eq : Option.bind (get "aura" patch) (get "authorities") ≡ some (array aura_authorities)
  pub aura_count : length aura_authorities ≡ authorities
  pub aura_fits : length aura_authorities ≤ aura_config.max_authorities
  pub grandpa_authorities : List Json
  pub grandpa_eq :
      Option.bind (get "grandpa" patch) (get "authorities") ≡ some (array grandpa_authorities)
  pub grandpa_count : length grandpa_authorities ≡ authorities
  pub grandpa_fits : length grandpa_authorities ≤ grandpa_config.max_authorities

module _ (C : Crypto) (authorities : List (C.AuraId × C.GrandpaId)) (root : C.AccountId) where
  read_balances-testnet_genesis :
      (endowed : List C.AccountId) (println : Bool)
      → read_balances (testnet_genesis C authorities root endowed println)
        ≡ some (map (λ k. (C.account_json k, 2 ^ 60)) endowed)
  unfolding read_balances testnet_genesis
  read_balances-testnet_genesis endowed println = read_list-array C.account_json (2 ^ 60) endowed

  -- For fewer than 16 endowed accounts of which the root is the first, the patch funds them all,
  -- each at or above the existential deposit and together within `u64`.
  pub testnet_genesis-IsFunded :
      (others : List C.AccountId) (println : Bool)
      → length others < 15
      → IsFunded
          (length others + 1)
          existential_deposit
          (testnet_genesis C authorities root (root ∷ others) println)
  unfolding testnet_genesis Option.bind
  testnet_genesis-IsFunded others println few = record {
    endowed = map (λ k. (C.account_json k, 2 ^ 60)) (root ∷ others);
    endowed_balances = read_balances-testnet_genesis (root ∷ others) println;
    endowed_count =
        omega (
          arith,
          length-map {B = Json × ℕ} (λ (k : C.AccountId). (C.account_json k, 2 ^ 60)) others,
        );
    above_deposit =
        All-map C.account_json (2 ^ 60) (λ b. existential_deposit ≤ b) (root ∷ others)
          (omega arith);
    issuance_fits = omega (arith, total_issuance-map C.account_json (2 ^ 60) (root ∷ others));
    root = C.account_json root;
    sudo_key = refl;
    root_balance = 2 ^ 60;
    others = map (λ k. (C.account_json k, 2 ^ 60)) others;
    root_endowed = refl;
  }

  -- Every key of the patch, for all authorities and accounts, names a pallet of the runtime.
  pub testnet_genesis-IsKnown :
      (endowed : List C.AccountId) (println : Bool)
      → All IsKnown (keys (testnet_genesis C authorities root endowed println))
  unfolding testnet_genesis
  testnet_genesis-IsKnown endowed println =
      ((balances, refl), ((aura, refl), ((grandpa, refl), ((sudo, refl), tt))))

  -- Up to 32 authorities are within the limits of both consensus pallets.
  pub testnet_genesis-FitsLimits :
      (endowed : List C.AccountId) (println : Bool)
      → length authorities ≤ 32
      → FitsLimits (length authorities) (testnet_genesis C authorities root endowed println)
  unfolding testnet_genesis Option.bind
  testnet_genesis-FitsLimits endowed println few = record {
    aura_authorities = map (aura_entry C) authorities;
    aura_eq = refl;
    aura_count = length-map (aura_entry C) authorities;
    aura_fits = omega (arith, length-map (aura_entry C) authorities);
    grandpa_authorities = map (grandpa_entry C) authorities;
    grandpa_eq = refl;
    grandpa_count = length-map (grandpa_entry C) authorities;
    grandpa_fits = omega (arith, length-map (grandpa_entry C) authorities);
  }
