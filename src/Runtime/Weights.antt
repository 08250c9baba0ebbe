-- ===== src/Runtime/Weights.antt =====
-- challenge-3/runtime/src/weights: the weights of a block, an extrinsic and a database access. The
-- units `WEIGHT_REF_TIME_PER_NANOS`, `_MICROS` and `_MILLIS` are frame_support's.
pub mod Checks
pub mod Sane
use Prim.Native.Nat.{min}
use sub0_bangkok_challenges.Common.{ℕ, ◌*◌, ◌-◌, ◌^◌}

pub record Weight : Type 0 where
  pub ref_time : ℕ
  pub proof_size : ℕ

pub record RuntimeDbWeight : Type 0 where
  pub read : ℕ
  pub write : ℕ

-- `u64::saturating_mul`
abbrev pub saturating_mul : ℕ → ℕ → ℕ
saturating_mul a b = min (a * b) (2 ^ 64 - 1)

module _ (nanos : ℕ) where
  -- Importing a block with no extrinsics.
  unfoldable pub block_execution_weight : Weight
  block_execution_weight = record { ref_time = saturating_mul nanos 5_000_000; proof_size = 0 }

  -- Executing a no-op extrinsic.
  unfoldable pub extrinsic_base_weight : Weight
  extrinsic_base_weight = record { ref_time = saturating_mul nanos 125_000; proof_size = 0 }

  unfoldable pub rocks_db_weight : RuntimeDbWeight
  rocks_db_weight = record { read = 25_000 * nanos; write = 100_000 * nanos }

  unfoldable pub parity_db_weight : RuntimeDbWeight
  parity_db_weight = record { read = 8_000 * nanos; write = 50_000 * nanos }
