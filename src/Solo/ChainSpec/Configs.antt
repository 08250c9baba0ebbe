-- ===== src/Solo/ChainSpec/Configs.antt =====
-- The two built-in specifications, for keys that can be derived.
use sub0_bangkok_challenges.Common.{
  ℕ, ◌+◌, String, ◌<>◌, true, Option, none, some, List, [], ◌∷◌, ◌≡◌, ◌<◌, ◌≤◌, ◌∙◌, refl, subst,
  arith, length, All, done, failed, run,
}
use sub0_bangkok_challenges.Node.Json.{keys}
use sub0_bangkok_challenges.Node.Spec.{ChainSpec}
use sub0_bangkok_challenges.Node.Crypto.{Crypto, Build, vec, Succeeds, vec_total}
use sub0_bangkok_challenges.Node.Genesis.{IsFunded}
use sub0_bangkok_challenges.Runtime.Constants.{existential_deposit}
use sub0_bangkok_challenges.Solo.ChainSpec.{
  ok_or, get_account_id_from_seed, authority_keys_from_seed, testnet_genesis, development_endowed,
  local_endowed, development_config, local_testnet_config, development_spec, local_testnet_spec,
}
use sub0_bangkok_challenges.Solo.ChainSpec.Genesis.{
  IsKnown, FitsLimits, testnet_genesis-FitsLimits, testnet_genesis-IsFunded,
  testnet_genesis-IsKnown,
}

module _ (C : Crypto) where
  -- The seed is a valid derivation for the account scheme, and for both authority schemes.
  abbrev pub Derives : String → Type 0
  Derives s = (k : C.Sr25519) × (C.sr25519_from_string ("//" <> s) ≡ some k)

  abbrev pub DerivesAuthority : String → Type 0
  DerivesAuthority s =
      (a : C.AuraId) × (g : C.GrandpaId) × (C.aura_from_string ("//" <> s) ≡ some a)
      × (C.grandpa_from_string ("//" <> s) ≡ some g)

  account_total : (s : String) → Derives s → Succeeds (get_account_id_from_seed C) s
  unfolding get_account_id_from_seed run
  account_total s (k, e) = (C.into_account k, rw e)

  authority_total : (s : String) → DerivesAuthority s → Succeeds (authority_keys_from_seed C) s
  unfolding authority_keys_from_seed run
  authority_total s (a, g, ea, eg) = ((a, g), rw (ea, eg))

  accounts_total :
      (seeds : List String) → All Derives seeds → All (Succeeds (get_account_id_from_seed C)) seeds
  accounts_total [] h = tt
  accounts_total (s ∷ seeds) (d, h) = (account_total s d, accounts_total seeds h)

  authorities_total :
      (seeds : List String)
      → All DerivesAuthority seeds
      → All (Succeeds (authority_keys_from_seed C)) seeds
  authorities_total [] h = tt
  authorities_total (s ∷ seeds) (d, h) = (authority_total s d, authorities_total seeds h)

  -- The keys of a configuration, once they are derived. The root's account is endowed first.
  record Parts (authority_seeds other_seeds : List String) : Type 0 where
    authorities : List (C.AuraId × C.GrandpaId)
    root : C.AccountId
    others : List C.AccountId
    authorities_eq : vec (authority_keys_from_seed C) authority_seeds ≡ (done authorities, [])
    authorities_count : length authorities ≡ length authority_seeds
    root_eq : get_account_id_from_seed C "Alice" ≡ (done root, [])
    endowed_eq :
        vec (get_account_id_from_seed C) ("Alice" ∷ other_seeds) ≡ (done (root ∷ others), [])
    others_count : length others ≡ length other_seeds

  parts :
      (authority_seeds other_seeds : List String)
      → All DerivesAuthority authority_seeds
      → All Derives ("Alice" ∷ other_seeds)
      → Parts authority_seeds other_seeds
  unfolding vec run
  parts authority_seeds other_seeds ha (hr, ho) =
      let (authorities, ea, na) =
        vec_total _ authority_seeds (authorities_total authority_seeds ha) in
      let (root, er) = account_total "Alice" hr in
      let (others, eo, n) = vec_total _ other_seeds (accounts_total other_seeds ho) in
      record {
        authorities = authorities;
        root = root;
        others = others;
        authorities_eq = ea;
        authorities_count = na;
        root_eq = er;
        endowed_eq = rw (er, eo);
        others_count = n;
      }

  -- With the WASM binary `code` at hand a specification is built around it, funded, known to the
  -- runtime and within its limits. Without it the call is an error, and no panic.
  pub record Builds (accounts authorities : ℕ) (id : String)
      (config : Option String → Build ChainSpec) (code : String) : Type 0 where
    pub spec : ChainSpec
    pub spec_eq : config (some code) ≡ (done spec, [])
    pub code_eq : spec.code ≡ code
    pub id_eq : spec.id ≡ id
    pub funded : IsFunded accounts existential_deposit spec.genesis_patch
    pub known : All IsKnown (keys spec.genesis_patch)
    pub limits : FitsLimits authorities spec.genesis_patch
    pub without_code : config none ≡ (failed "Development wasm not available", [])

  FitsLimits-of :
      {authority_seeds other_seeds : List String} (n : ℕ) (p : Parts authority_seeds other_seeds)
      → length authority_seeds ≡ n
      → n ≤ 32
      → FitsLimits n (testnet_genesis C p.authorities p.root (p.root ∷ p.others) true)
  FitsLimits-of n p e few =
      let count : length p.authorities ≡ n = p.authorities_count ∙ e in
      subst (λ m. FitsLimits m (testnet_genesis C p.authorities p.root (p.root ∷ p.others) true))
        count
        (testnet_genesis-FitsLimits C p.authorities p.root (p.root ∷ p.others) true (omega arith))

  IsFunded-of :
      {authority_seeds other_seeds : List String} (n : ℕ) (p : Parts authority_seeds other_seeds)
      → length other_seeds ≡ n
      → n < 15
      → IsFunded
          (n + 1)
          existential_deposit
          (testnet_genesis C p.authorities p.root (p.root ∷ p.others) true)
  IsFunded-of n p e few =
      let count : length p.others ≡ n = p.others_count ∙ e in
      subst
        (λ m.
          IsFunded (m + 1) existential_deposit
            (testnet_genesis C p.authorities p.root (p.root ∷ p.others) true))
        count (testnet_genesis-IsFunded C p.authorities p.root p.others true (omega arith))

  pub development_config-Builds :
      All Derives development_endowed
      → All DerivesAuthority ("Alice" ∷ [])
      → (code : String) → Builds 4 1 "dev" (development_config C) code
  unfolding development_config ok_or run
  development_config-Builds hd ha code =
      let p = parts ("Alice" ∷ []) ("Bob" ∷ "Alice//stash" ∷ "Bob//stash" ∷ []) ha hd in
      record {
        spec = development_spec C code p.authorities p.root (p.root ∷ p.others);
        spec_eq = rw (p.authorities_eq, p.root_eq, p.endowed_eq);
        code_eq = refl;
        id_eq = refl;
        funded = IsFunded-of 3 p refl (omega arith);
        known = testnet_genesis-IsKnown C p.authorities p.root (p.root ∷ p.others) true;
        limits = FitsLimits-of 1 p refl (omega arith);
        without_code = refl;
      }

  pub local_testnet_config-Builds :
      All Derives local_endowed
      → All DerivesAuthority ("Alice" ∷ "Bob" ∷ [])
      → (code : String) → Builds 12 2 "local_testnet" (local_testnet_config C) code
  unfolding local_testnet_config ok_or run
  local_testnet_config-Builds hd ha code =
      let p =
        parts ("Alice" ∷ "Bob" ∷ [])
          ("Bob" ∷ "Charlie" ∷ "Dave" ∷ "Eve" ∷ "Ferdie" ∷ "Alice//stash" ∷ "Bob//stash"
            ∷ "Charlie//stash" ∷ "Dave//stash" ∷ "Eve//stash" ∷ "Ferdie//stash" ∷ [])
          ha hd in
      record {
        spec = local_testnet_spec C code p.authorities p.root (p.root ∷ p.others);
        spec_eq = rw (p.authorities_eq, p.root_eq, p.endowed_eq);
        code_eq = refl;
        id_eq = refl;
        funded = IsFunded-of 11 p refl (omega arith);
        known = testnet_genesis-IsKnown C p.authorities p.root (p.root ∷ p.others) true;
        limits = FitsLimits-of 2 p refl (omega arith);
        without_code = refl;
      }
