-- ===== src/Runtime/Apis/Chain.antt =====
-- Blocks, transactions, metadata, genesis and trial runs.
use sub0_bangkok_challenges.Common.{ℕ, String, Bool, Option, none, List, [], Result, done}
use sub0_bangkok_challenges.Runtime.Constants.{RuntimeVersion, version}
use sub0_bangkok_challenges.Runtime.Weights.{Weight}
use sub0_bangkok_challenges.Runtime.Limits as Limits
use sub0_bangkok_challenges.Runtime.Limits.{BlockWeights, runtime_block_weights}
use sub0_bangkok_challenges.Runtime.Apis.Calls.{
  Types, Bytes, Api, Pallets, answer, unwrap, outcome_map,
}

module _ {T : Types} (P : Pallets T) where
  -- `Core`
  unfoldable pub version_of : Api T RuntimeVersion
  version_of = answer version

  unfoldable pub execute_block : T.Block → Api T (Unit {0})
  execute_block block = P.execute_block block

  unfoldable pub initialize_block : T.Header → Api T T.InclusionMode
  initialize_block header = P.initialize_block header

  -- `Metadata`
  unfoldable pub metadata : Api T T.Metadata
  metadata = P.metadata

  unfoldable pub metadata_at_version : ℕ → Api T (Option T.Metadata)
  metadata_at_version v = P.metadata_at_version v

  unfoldable pub metadata_versions : Api T (List ℕ)
  metadata_versions = P.metadata_versions

  -- `BlockBuilder`
  unfoldable pub apply_extrinsic : T.Extrinsic → Api T T.ApplyExtrinsicResult
  apply_extrinsic extrinsic = P.apply_extrinsic extrinsic

  unfoldable pub finalize_block : Api T T.Header
  finalize_block = P.finalize_block

  unfoldable pub inherent_extrinsics : T.InherentData → Api T (List T.Extrinsic)
  inherent_extrinsics inherents = P.create_extrinsics inherents

  unfoldable pub check_inherents : T.Block → T.InherentData → Api T T.CheckInherentsResult
  check_inherents block inherents = P.check_extrinsics inherents block

  -- `TaggedTransactionQueue`
  unfoldable pub validate_transaction :
      T.TransactionSource → T.Extrinsic → T.Hash → Api T T.TransactionValidity
  validate_transaction source tx block_hash = P.validate_transaction source tx block_hash

  -- `OffchainWorkerApi`
  unfoldable pub offchain_worker : T.Header → Api T (Unit {0})
  offchain_worker header = P.offchain_worker header

  -- `GenesisBuilder`: there are no named presets.
  unfoldable pub build_state : Bytes → Api T (Result String (Unit {0}))
  build_state config = P.build_state config

  unfoldable pub get_preset : Option String → Api T (Option Bytes)
  get_preset id = P.get_preset id (λ _. none)

  unfoldable pub preset_names : Api T (List String)
  preset_names = answer []

  -- `TryRuntime`, with the cargo feature `try-runtime`.
  unfoldable pub on_runtime_upgrade : Limits.Sdk → ℕ → T.UpgradeChecks → Api T (Weight × Weight)
  on_runtime_upgrade S nanos checks s =
      let (weight, s') = unwrap (P.try_runtime_upgrade checks) s in
      (
        outcome_map
            (λ w.
              outcome_map (λ (weights : BlockWeights). done (w, weights.max_block))
                (runtime_block_weights S nanos))
            weight,
        s',
      )

  unfoldable pub try_execute_block : T.Block → Bool → Bool → T.TryStateSelect → Api T Weight
  try_execute_block block state_root_check signature_check select =
      unwrap (P.try_execute_block block state_root_check signature_check select)
