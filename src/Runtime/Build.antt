-- ===== src/Runtime/Build.antt =====
-- challenge-3/runtime/build.rs: the WASM binary that is built with the runtime.
-- `substrate_wasm_builder` is the SDK's.
use sub0_bangkok_challenges.Common.{ℕ, String, Bool, not, ◌&&◌, if◌then◌else◌, Act, pure, emit}

-- The cargo features that the script looks at.
pub record Features : Type 0 where
  pub std : Bool
  pub metadata_hash : Bool

pub record Sdk : Type 1 where
  pub WasmBuilder : Type 0
  pub init_with_defaults : WasmBuilder
  -- with the symbol and the decimals of the token
  pub enable_metadata_hash : String → ℕ → WasmBuilder → WasmBuilder

module _ (S : Sdk) where
  pub data Built : Type 0 where
    build : S.WasmBuilder → Built
    build_using_defaults : Built

  unfoldable pub main : Features → Act ⊥ Built (Unit {0})
  main features =
      if features.std && features.metadata_hash
      then emit (build (S.enable_metadata_hash "UNIT" 12 S.init_with_defaults))
      else if features.std && not features.metadata_hash
      then emit build_using_defaults
      else pure tt
