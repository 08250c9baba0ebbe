-- ===== src/Solo/Command/Specs.antt =====
-- Which chain specification an id names.
use sub0_bangkok_challenges.Common.{
  ◌≡◌, refl, ◌∙◌, String, Bool, true, false, Option, some, List, [], ◌∷◌, Result, All, contains,
  done, lift, ◌||◌, if◌then◌else◌, str_eq,
}
use sub0_bangkok_challenges.Node.Json.{keys}
use sub0_bangkok_challenges.Node.Spec.{ChainSpec}
use sub0_bangkok_challenges.Node.Crypto.{Crypto}
use sub0_bangkok_challenges.Solo.ChainSpec.{local_endowed, local_testnet_config}
use sub0_bangkok_challenges.Solo.ChainSpec.Genesis.{IsKnown}
use sub0_bangkok_challenges.Solo.ChainSpec.Configs.{
  Derives, DerivesAuthority, Builds, development_config-Builds, local_testnet_config-Builds,
}
use sub0_bangkok_challenges.Solo.Command.{load_spec}

-- The ids of the built-in specifications.
abbrev pub built_in : List String
built_in = "dev" ∷ "" ∷ "local" ∷ []

otherwise :
    {A : Type 0} (a b c : Bool) (x y z : A)
    → (a || (b || (c || false))) ≡ false
    → (if a then x else if b || c then y else z) ≡ z
otherwise false false false x y z e = refl
otherwise true b c x y z e = cc
otherwise false true c x y z e = cc
otherwise false false true x y z e = cc

module _ (C : Crypto) (from_json_file : String → Result String ChainSpec) where
  -- The id loads a specification with this id and WASM binary, known to the runtime.
  pub record Loads (code id loaded_id : String) : Type 0 where
    pub spec : ChainSpec
    pub spec_eq : load_spec C (some code) from_json_file id ≡ (done spec, [])
    pub id_eq : spec.id ≡ loaded_id
    pub code_eq : spec.code ≡ code
    pub known : All IsKnown (keys spec.genesis_patch)

  load_spec-local :
      (code id : String)
      → load_spec C (some code) from_json_file id ≡ local_testnet_config C (some code)
      → Builds C 12 2 "local_testnet" (local_testnet_config C) code
      → Loads code id "local_testnet"
  load_spec-local code id e b = record {
    spec = b.spec;
    spec_eq = e ∙ b.spec_eq;
    id_eq = b.id_eq;
    code_eq = b.code_eq;
    known = b.known;
  }

  -- If the seeds derive keys, the ids `dev`, the empty one and `local` load the built-in
  -- specifications around the given WASM binary, whatever is in the files; any other id is read
  -- from a file, and neither the WASM binary nor the keys matter.
  pub load_spec-ById :
      All (Derives C) local_endowed
      → All (DerivesAuthority C) ("Alice" ∷ "Bob" ∷ [])
      → (code other : String) (wasm_binary : Option String) → contains built_in other ≡ false
      → Loads code "dev" "dev"
        × Loads code "" "local_testnet"
        × Loads code "local" "local_testnet"
        × (load_spec C wasm_binary from_json_file other ≡ lift (from_json_file other))
  unfolding load_spec
  load_spec-ById hd ha code other wasm_binary e =
      let b = local_testnet_config-Builds C hd ha code in
      let (alice, (bob, (_, (_, (_, (_, (alice_stash, (bob_stash, _)))))))) = hd in
      let d =
        development_config-Builds C (alice, (bob, (alice_stash, (bob_stash, tt)))) (ha.0, tt)
          code in
      (
        record {
          spec = d.spec;
          spec_eq = d.spec_eq;
          id_eq = d.id_eq;
          code_eq = d.code_eq;
          known = d.known;
        },
        load_spec-local code "" refl b,
        load_spec-local code "local" refl b,
        otherwise (str_eq other "dev") (str_eq other "") (str_eq other "local") _ _ _ e,
      )
