-- ===== src/Runtime/Limits.antt =====
-- The limits of a block, challenge-3/runtime/src/configs/mod.rs. The builder of `BlockWeights`,
-- `BlockLength` and `Perbill` are the SDK's; no limit of a class is given to the builder, since
-- those lines are comments.
use sub0_bangkok_challenges.Common.{ℕ, ◌*◌, Option, Outcome, done, failed, panicked}
use sub0_bangkok_challenges.Runtime.Constants.{normal_dispatch_ratio}
use sub0_bangkok_challenges.Runtime.Weights.{Weight, block_execution_weight}

pub data DispatchClass : Type 0 where
  normal operational mandatory : DispatchClass

pub record WeightsPerClass : Type 0 where
  pub base_extrinsic : Weight
  pub max_extrinsic : Option Weight
  pub max_total : Option Weight
  pub reserved : Option Weight

pub record BlockWeights : Type 0 where
  pub base_block : Weight
  pub max_block : Weight
  pub per_class : DispatchClass → WeightsPerClass

pub record BlockLength : Type 0 where
  pub max : DispatchClass → ℕ

pub record Sdk : Type 1 where
  pub BlockWeightsBuilder : Type 0
  pub builder : BlockWeightsBuilder
  pub base_block : Weight → BlockWeightsBuilder → BlockWeightsBuilder
  pub build_or_panic : BlockWeightsBuilder → Outcome ⊥ BlockWeights
  -- the second argument is a `Perbill`, in percent
  pub max_with_normal_ratio : ℕ → ℕ → BlockLength
  -- `Perbill::from_percent(p) * weight`
  pub percent_of : ℕ → Weight → Weight

module _ (S : Sdk) (nanos : ℕ) where
  -- `RuntimeBlockLength`
  unfoldable pub runtime_block_length : BlockLength
  runtime_block_length = S.max_with_normal_ratio (5 * 1024 * 1024) normal_dispatch_ratio

  -- `RuntimeBlockWeights`
  unfoldable pub runtime_block_weights : Outcome ⊥ BlockWeights
  runtime_block_weights = S.build_or_panic (S.base_block (block_execution_weight nanos) S.builder)

  -- `MessageQueueServiceWeight`
  unfoldable pub message_queue_service_weight : Outcome ⊥ Weight
  message_queue_service_weight = elim runtime_block_weights [
    | done weights ↦ done (S.percent_of 35 weights.max_block)
    | failed e ↦ failed e
    | panicked s ↦ panicked s
  ]
