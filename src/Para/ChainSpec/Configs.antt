-- ===== src/Para/ChainSpec/Configs.antt =====
-- The two built-in specifications, for keys that can be derived.
use sub0_bangkok_challenges.Common.{
  ℕ, ◌+◌, ◌^◌, String, ◌<>◌, Option, none, some, List, [], ◌∷◌, map, ◌≡◌, refl, sym, subst, arith,
  length, All, done, panicked, run, lookup,
}
use sub0_bangkok_challenges.Node.Json.{Json, num, keys}
use sub0_bangkok_challenges.Runtime.Pallets.{unknown}
use sub0_bangkok_challenges.Node.Spec.{ChainSpec, Extensions}
use sub0_bangkok_challenges.Node.Crypto.{Crypto, Build, vec, Succeeds, vec_total}
use sub0_bangkok_challenges.Node.Genesis.{IsFunded}
use sub0_bangkok_challenges.Runtime.Constants.{unit, ss58_prefix}
use sub0_bangkok_challenges.Para.ChainSpec.{
  Crates, get_from_seed, get_account_id_from_seed, get_collator_keys_from_seed, collator,
  collator_seeds, endowed_seeds, properties, extensions, testnet_genesis, development_spec,
  local_testnet_spec, development_config, local_testnet_config,
}
use sub0_bangkok_challenges.Para.ChainSpec.Genesis.{
  HasSmallDeposit, IsCollating, collator_json, testnet_genesis-unknown, testnet_genesis-IsCollating,
  parachain_genesis-IsFunded,
}

module _ (C : Crypto) (R : Crates) where
  -- The seed is a valid derivation for the account scheme; for the authority scheme too.
  abbrev pub DerivesAccount : String → Type 0
  DerivesAccount s = (k : C.Sr25519) × (C.sr25519_from_string ("//" <> s) ≡ some k)

  abbrev pub DerivesCollator : String → Type 0
  DerivesCollator s = (a : C.AuraId) × (C.aura_from_string ("//" <> s) ≡ some a)

  account_total : (s : String) → DerivesAccount s → Succeeds (get_account_id_from_seed C R) s
  unfolding get_account_id_from_seed get_from_seed run
  account_total s (k, e) = (C.into_account k, rw e)

  accounts_total :
      (seeds : List String)
      → All DerivesAccount seeds
      → All (Succeeds (get_account_id_from_seed C R)) seeds
  accounts_total [] h = tt
  accounts_total (s ∷ seeds) (d, h) = (account_total s d, accounts_total seeds h)

  -- The accounts and the Aura keys are those of the seeds, one for each.
  abbrev pub AreOf : List String → List (C.AccountId × C.AuraId) → Type 0
  AreOf [] [] = Unit
  AreOf (s ∷ seeds) ((account, aura) ∷ cs) =
      ((k : C.Sr25519) × (C.sr25519_from_string ("//" <> s) ≡ some k)
        × (C.into_account k ≡ account))
      × (C.aura_from_string ("//" <> s) ≡ some aura)
      × AreOf seeds cs
  AreOf [] (_ ∷ _) = ⊥
  AreOf (_ ∷ _) [] = ⊥

  -- A specification for the template's runtime. Twelve accounts are funded; the collators, with the
  -- account and the Aura key of their seeds, are the session's validators and can pay the bond; and
  -- the id of the parachain in the extensions, which the node reads, is that of the genesis, which
  -- the runtime reads. Three keys of the genesis name no pallet of this repository's runtime.
  pub record IsParachain (id : String) (spec : ChainSpec) : Type 0 where
    pub id_eq : spec.id ≡ id
    pub funded : IsFunded 12 R.existential_deposit spec.genesis_patch
    pub parachain : Extensions
    pub extensions_eq : spec.extensions ≡ some parachain
    pub collators : List (C.AccountId × C.AuraId)
    pub collators_derived : AreOf collator_seeds collators
    pub collating :
        IsCollating R
          (map (collator_json C R) collators)
          (2 ^ 60)
          parachain.para_id
          spec.genesis_patch
    pub unknown_eq :
        unknown (keys spec.genesis_patch)
        ≡ "parachainInfo" ∷ "collatorSelection" ∷ "polkadotXcm" ∷ []

  -- The wallets' view of a specification agrees with this repository's runtime: one token is `unit` of the
  -- balance's smallest parts, and addresses have the prefix of `frame_system`.
  pub record AgreesOnToken (spec : ChainSpec) : Type 0 where
    pub properties : List (String × Json)
    pub properties_eq : spec.properties ≡ some properties
    pub decimals : ℕ
    pub decimals_eq : lookup "tokenDecimals" properties ≡ some (num decimals)
    pub decimals_unit : 10 ^ decimals ≡ unit
    pub prefix_eq : lookup "ss58Format" properties ≡ some (num ss58_prefix)

  -- With the WASM binary `code` at hand the specification is built around it, and has `P` too;
  -- without it the node panics.
  pub record BuildsParachain (id : String) (P : ChainSpec → Type 0)
      (config : Option String → Build ChainSpec) (code : String) : Type 0 where
    pub spec : ChainSpec
    pub spec_eq : config (some code) ≡ (done spec, [])
    pub code_eq : spec.code ≡ code
    pub is_parachain : IsParachain id spec
    pub described : P spec
    pub without_code : config none ≡ (panicked "WASM binary was not built, please build it!", [])

  -- The keys of a configuration, once they are derived.
  record Parts : Type 0 where
    collators : List (C.AccountId × C.AuraId)
    collators_derived : AreOf collator_seeds collators
    root : C.AccountId
    others : List C.AccountId
    collators_eq : vec (collator C R) collator_seeds ≡ (done collators, [])
    endowed_eq : vec (get_account_id_from_seed C R) endowed_seeds ≡ (done (root ∷ others), [])
    others_count : length others ≡ 11
    root_eq : get_account_id_from_seed C R "Alice" ≡ (done root, [])

  abbrev other_seeds : List String
  other_seeds =
      "Bob" ∷ "Charlie" ∷ "Dave" ∷ "Eve" ∷ "Ferdie" ∷ "Alice//stash" ∷ "Bob//stash"
      ∷ "Charlie//stash" ∷ "Dave//stash" ∷ "Eve//stash" ∷ "Ferdie//stash" ∷ []

  parts : All DerivesAccount endowed_seeds → All DerivesCollator collator_seeds → Parts
  unfolding vec collator get_account_id_from_seed get_collator_keys_from_seed get_from_seed run
  parts (alice, rest) (alice_aura, (bob_aura, _)) =
      let (root, er) = account_total "Alice" alice in
      let (others, eo, n) =
        vec_total (get_account_id_from_seed C R) other_seeds (accounts_total other_seeds rest) in
      let (alice_key, ea) = alice in
      let (alice_aura_key, eaa) = alice_aura in
      let (bob_key, eb) = rest.0 in
      let (bob_aura_key, eba) = bob_aura in
      record {
        collators =
            (C.into_account alice_key, alice_aura_key)
            ∷ (C.into_account bob_key, bob_aura_key)
            ∷ [];
        collators_derived = ((alice_key, ea, refl), eaa, ((bob_key, eb, refl), eba, tt));
        root = root;
        others = others;
        collators_eq = rw (ea, eaa, eb, eba);
        endowed_eq = rw (er, eo);
        others_count = n;
        root_eq = er;
      }

  IsParachain-of :
      HasSmallDeposit R
      → (id : String) (p : Parts) (spec : ChainSpec) → spec.id ≡ id
      → spec.extensions ≡ some extensions
      → spec.genesis_patch ≡ testnet_genesis C R p.collators (p.root ∷ p.others) p.root 2000
      → IsParachain id spec
  IsParachain-of small id p spec e x g = record {
    id_eq = e;
    funded = subst (IsFunded 12 R.existential_deposit) (sym g) (
        subst
          (λ n.
            IsFunded (n + 1) R.existential_deposit
              (testnet_genesis C R p.collators (p.root ∷ p.others) p.root 2000))
          p.others_count
          (parachain_genesis-IsFunded C R p.collators p.others p.root 2000 small
            (omega (arith, p.others_count))));
    parachain = extensions;
    extensions_eq = x;
    collators = p.collators;
    collators_derived = p.collators_derived;
    collating =
        subst (IsCollating R (map (collator_json C R) p.collators) (2 ^ 60) 2000) (sym g)
          (testnet_genesis-IsCollating C R p.collators (p.root ∷ p.others) p.root 2000 small);
    unknown_eq =
        subst
          (λ patch.
            unknown (keys patch) ≡ "parachainInfo" ∷ "collatorSelection" ∷ "polkadotXcm" ∷ [])
          (sym g) (testnet_genesis-unknown C R p.collators (p.root ∷ p.others) p.root 2000);
  }

  -- Both configurations are built, whatever the deposit is.
  pub development_config-done :
      All DerivesAccount endowed_seeds
      → All DerivesCollator collator_seeds
      → (code : String)
      → (spec : ChainSpec) × (development_config C R (some code) ≡ (done spec, []))
  unfolding development_config run
  development_config-done hd hc code =
      let p = parts hd hc in
      (
        development_spec C R code p.collators (p.root ∷ p.others) p.root,
        rw (p.collators_eq, p.endowed_eq, p.root_eq),
      )

  pub local_testnet_config-done :
      All DerivesAccount endowed_seeds
      → All DerivesCollator collator_seeds
      → (code : String)
      → (spec : ChainSpec) × (local_testnet_config C R (some code) ≡ (done spec, []))
  unfolding local_testnet_config run
  local_testnet_config-done hd hc code =
      let p = parts hd hc in
      (
        local_testnet_spec C R code p.collators (p.root ∷ p.others) p.root,
        rw (p.collators_eq, p.endowed_eq, p.root_eq),
      )

  -- If the accounts' and the collators' seeds derive keys and the template's deposit is at most
  -- 10^12, the development configuration is built around the given WASM binary. Its genesis funds
  -- twelve accounts; the invulnerables and the validators are the accounts of the collators' seeds,
  -- each with its own Aura key, and can pay the bond; and its parachain id is that of the
  -- extensions. Three keys of the genesis name no pallet of this repository's runtime. The
  -- specification has no properties of the token. Without a WASM binary the call panics.
  pub development_config-BuildsParachain :
      HasSmallDeposit R
      → All DerivesAccount endowed_seeds
      → All DerivesCollator collator_seeds
      → (code : String)
      → BuildsParachain "dev" (λ spec. spec.properties ≡ none) (development_config C R) code
  unfolding development_config run
  development_config-BuildsParachain small hd hc code =
      let p = parts hd hc in
      let spec = development_spec C R code p.collators (p.root ∷ p.others) p.root in
      record {
        spec = spec;
        spec_eq = rw (p.collators_eq, p.endowed_eq, p.root_eq);
        code_eq = refl;
        is_parachain = IsParachain-of small "dev" p spec refl refl refl;
        described = refl;
        without_code = refl;
      }

  -- If the accounts' and the collators' seeds derive keys and the template's deposit is at most
  -- 10^12, the local configuration is built around the given WASM binary. Its genesis funds twelve
  -- accounts; the invulnerables and the validators are the accounts of the collators' seeds, each
  -- with its own Aura key, and can pay the bond; and its parachain id is that of the extensions.
  -- Three keys of the genesis name no pallet of this repository's runtime. The properties of the
  -- token agree with the unit and the address prefix of this repository's runtime. Without a WASM
  -- binary the call panics.
  pub local_testnet_config-BuildsParachain :
      HasSmallDeposit R
      → All DerivesAccount endowed_seeds
      → All DerivesCollator collator_seeds
      → (code : String)
      → BuildsParachain "local_testnet" AgreesOnToken (local_testnet_config C R) code
  unfolding local_testnet_config run
  local_testnet_config-BuildsParachain small hd hc code =
      let p = parts hd hc in
      let spec = local_testnet_spec C R code p.collators (p.root ∷ p.others) p.root in
      record {
        spec = spec;
        spec_eq = rw (p.collators_eq, p.endowed_eq, p.root_eq);
        code_eq = refl;
        is_parachain = IsParachain-of small "local_testnet" p spec refl refl refl;
        described = record {
          properties = properties;
          properties_eq = refl;
          decimals = 12;
          decimals_eq = refl;
          decimals_unit = refl;
          prefix_eq = refl;
        };
        without_code = refl;
      }
