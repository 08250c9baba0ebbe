-- ===== src/Para/Command/Specs.antt =====
-- Which chain specification an id names.
use sub0_bangkok_challenges.Common.{
  ◌≡◌, refl, String, Bool, true, false, Option, some, List, [], ◌∷◌, Result, All, contains, done,
  lift, ◌||◌, if◌then◌else◌, str_eq,
}
use sub0_bangkok_challenges.Node.Spec.{ChainSpec, Extensions, try_get}
use sub0_bangkok_challenges.Node.Crypto.{Crypto}
use sub0_bangkok_challenges.Para.ChainSpec.Genesis.{HasSmallDeposit}
use sub0_bangkok_challenges.Para.ChainSpec.{Crates, collator_seeds, endowed_seeds}
use sub0_bangkok_challenges.Para.ChainSpec.Configs.{
  DerivesAccount, DerivesCollator, IsParachain, BuildsParachain, development_config-BuildsParachain,
  local_testnet_config-BuildsParachain,
}
use sub0_bangkok_challenges.Para.Command.{load_spec}

-- The ids of the built-in specifications.
abbrev pub built_in : List String
built_in = "dev" ∷ "template-rococo" ∷ "" ∷ "local" ∷ []

otherwise :
    {A : Type 0} (a b c d : Bool) (x y z w : A)
    → (a || (b || (c || (d || false)))) ≡ false
    → (if a then x else if b then y else if c || d then z else w) ≡ w
otherwise false false false false x y z w e = refl
otherwise true b c d x y z w e = cc
otherwise false true c d x y z w e = cc
otherwise false false true d x y z w e = cc
otherwise false false false true x y z w e = cc

module _ (C : Crypto) (R : Crates) (from_json_file : String → Result String ChainSpec) where
  -- The id loads a specification of the parachain with this id and WASM binary, whose extensions
  -- name the parachain for the node.
  pub record Loads (code id loaded_id : String) : Type 0 where
    pub spec : ChainSpec
    pub spec_eq : load_spec C R (some code) from_json_file id ≡ (done spec, [])
    pub code_eq : spec.code ≡ code
    pub is_parachain : IsParachain C R loaded_id spec
    pub parachain : Extensions
    pub parachain_eq : try_get spec ≡ some parachain

  module _ (id : String) where
    loads :
        {P : ChainSpec → Type 0} (code loaded_id : String)
        → BuildsParachain C R loaded_id P
            (λ wasm_binary. load_spec C R wasm_binary from_json_file id)
            code
        → Loads code id loaded_id
    unfolding try_get
    loads code loaded_id b = record {
      spec = b.spec;
      spec_eq = b.spec_eq;
      code_eq = b.code_eq;
      is_parachain = b.is_parachain;
      parachain = b.is_parachain.parachain;
      parachain_eq = b.is_parachain.extensions_eq;
    }

  -- An id that is not built in is read from a file.
  pub load_spec-other :
      (wasm_binary : Option String) (id : String)
      → contains built_in id ≡ false
      → load_spec C R wasm_binary from_json_file id ≡ lift (from_json_file id)
  unfolding load_spec
  load_spec-other wasm_binary id e =
      otherwise (str_eq id "dev") (str_eq id "template-rococo") (str_eq id "") (str_eq id "local") _
        _ _ _ e

  -- If the seeds derive keys and the template's deposit is at most 10^12, the ids `dev`,
  -- `template-rococo`, the empty one and `local` load the built-in specifications around the given
  -- WASM binary, whatever is in the files: with the id, twelve funded accounts, the collators of
  -- the seeds with their Aura keys, and one parachain id for the genesis and the node, which finds
  -- it. Any other id is read from a file, and neither the WASM binary nor the keys matter.
  pub load_spec-Loads :
      HasSmallDeposit R
      → All (DerivesAccount C R) endowed_seeds
      → All (DerivesCollator C R) collator_seeds
      → (code other : String) (wasm_binary : Option String) → contains built_in other ≡ false
      → Loads code "dev" "dev"
        × Loads code "template-rococo" "local_testnet"
        × Loads code "" "local_testnet"
        × Loads code "local" "local_testnet"
        × (load_spec C R wasm_binary from_json_file other ≡ lift (from_json_file other))
  unfolding load_spec
  load_spec-Loads small hd hc code other wasm_binary e =
      let d = development_config-BuildsParachain C R small hd hc code in
      let l = local_testnet_config-BuildsParachain C R small hd hc code in
      (
        loads "dev" code "dev" d,
        loads "template-rococo" code "local_testnet" l,
        loads "" code "local_testnet" l,
        loads "local" code "local_testnet" l,
        load_spec-other wasm_binary other e,
      )
