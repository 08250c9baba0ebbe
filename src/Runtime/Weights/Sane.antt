-- ===== src/Runtime/Weights/Sane.antt =====
-- The `sane` tests of challenge-3/runtime/src/weights. A failed `assert!`, and a product above
-- `u64`, is a panic. The units and the weights of database accesses are frame_support's.
use sub0_bangkok_challenges.Common.{
  ℕ, ◌*◌, ◌^◌, ◌≤◌, ◌<◌, ◌≡◌, ◌↔◌, String, ◌>>=◌, ◌>>◌, leb, arith,
}
use sub0_bangkok_challenges.Runtime.Weights.Checks.{
  Checked, mul, assert, Passes, assert-Passes, assert-Passes_last, assert-Passes_rest, mul-Passes,
  mul-Passes_parts,
}
use sub0_bangkok_challenges.Runtime.Weights.{
  Weight, RuntimeDbWeight, saturating_mul, block_execution_weight, extrinsic_base_weight,
  rocks_db_weight, parity_db_weight,
}

pub record Sdk : Type 0 where
  -- `WEIGHT_REF_TIME_PER_NANOS`, `_MICROS` and `_MILLIS`
  pub nanos : ℕ
  pub micros : ℕ
  pub millis : ℕ
  pub reads : RuntimeDbWeight → ℕ → Weight
  pub writes : RuntimeDbWeight → ℕ → Weight

module _ (S : Sdk) where
  unfoldable pub block_sane : Checked (Unit {0})
  block_sane = do
    let w = block_execution_weight S.nanos
    low ← mul 100 S.micros
    assert (leb low w.ref_time) "Weight should be at least 100 µs."
    high ← mul 50 S.millis
    assert (leb w.ref_time high) "Weight should be at most 50 ms."

  unfoldable pub extrinsic_sane : Checked (Unit {0})
  extrinsic_sane = do
    let w = extrinsic_base_weight S.nanos
    low ← mul 10 S.micros
    assert (leb low w.ref_time) "Weight should be at least 10 µs."
    assert (leb w.ref_time S.millis) "Weight should be at most 1 ms."

  unfoldable pub rocks_db_sane : Checked (Unit {0})
  rocks_db_sane = do
    let w = rocks_db_weight S.nanos
    assert (leb S.micros (S.reads w 1).ref_time) "Read weight should be at least 1 µs."
    assert (leb S.micros (S.writes w 1).ref_time) "Write weight should be at least 1 µs."
    assert (leb (S.reads w 1).ref_time S.millis) "Read weight should be at most 1 ms."
    assert (leb (S.writes w 1).ref_time S.millis) "Write weight should be at most 1 ms."

  unfoldable pub parity_db_sane : Checked (Unit {0})
  parity_db_sane = do
    let w = parity_db_weight S.nanos
    assert (leb S.micros (S.reads w 1).ref_time) "Read weight should be at least 1 µs."
    assert (leb S.micros (S.writes w 1).ref_time) "Write weight should be at least 1 µs."
    assert (leb (S.reads w 1).ref_time S.millis) "Read weight should be at most 1 ms."
    assert (leb (S.writes w 1).ref_time S.millis) "Write weight should be at most 1 ms."

  -- The units are multiples of each other in `u64`, and an access's weight is a multiple of the
  -- database's.
  pub record IsScale : Type 0 where
    pub of_nanos : S.micros ≡ 1_000 * S.nanos
    pub of_micros : S.millis ≡ 1_000 * S.micros
    pub in_u64 : S.millis < 2 ^ 64
    pub reads_ref_time :
        (w : RuntimeDbWeight) (n : ℕ) → (S.reads w n).ref_time ≡ saturating_mul w.read n
    pub writes_ref_time :
        (w : RuntimeDbWeight) (n : ℕ) → (S.writes w n).ref_time ≡ saturating_mul w.write n

-- The checks of an access that is between a microsecond and a millisecond.
accesses-Passes :
    (micros millis read write : ℕ) (m1 m2 m3 m4 : String)
    → micros ≤ read
    → micros ≤ write
    → read ≤ millis
    → write ≤ millis
    → Passes (do
      assert (leb micros read) m1
      assert (leb micros write) m2
      assert (leb read millis) m3
      assert (leb write millis) m4)
accesses-Passes micros millis read write m1 m2 m3 m4 a b c d =
    assert-Passes _ _ _ _ a
      (assert-Passes _ _ _ _ b (assert-Passes _ _ _ _ c (assert-Passes_last _ _ _ d)))

module _ (S : Sdk) (h : IsScale S) where
  extrinsic_sane-Passes : Passes (extrinsic_sane S)
  unfolding extrinsic_sane extrinsic_base_weight
  extrinsic_sane-Passes = mul-Passes _ _ _ (omega (arith, h.of_micros, h.in_u64)) (
      assert-Passes _ _ _ _ (omega (arith, h.of_nanos, h.of_micros, h.in_u64))
        (assert-Passes_last _ _ _ (omega (arith, h.of_nanos, h.of_micros, h.in_u64))))

  rocks_db_sane-Passes : Passes (rocks_db_sane S)
  unfolding rocks_db_sane rocks_db_weight
  rocks_db_sane-Passes =
      rw
        (
          h.reads_ref_time (rocks_db_weight S.nanos) 1,
          h.writes_ref_time (rocks_db_weight S.nanos) 1,
        )
        (accesses-Passes _ _ _ _ _ _ _ _ (omega (arith, h.of_nanos, h.of_micros, h.in_u64))
          (omega (arith, h.of_nanos, h.of_micros, h.in_u64))
          (omega (arith, h.of_nanos, h.of_micros, h.in_u64))
          (omega (arith, h.of_nanos, h.of_micros, h.in_u64)))

  parity_db_sane-Passes : Passes (parity_db_sane S)
  unfolding parity_db_sane parity_db_weight
  parity_db_sane-Passes =
      rw
        (
          h.reads_ref_time (parity_db_weight S.nanos) 1,
          h.writes_ref_time (parity_db_weight S.nanos) 1,
        )
        (accesses-Passes _ _ _ _ _ _ _ _ (omega (arith, h.of_nanos, h.of_micros, h.in_u64))
          (omega (arith, h.of_nanos, h.of_micros, h.in_u64))
          (omega (arith, h.of_nanos, h.of_micros, h.in_u64))
          (omega (arith, h.of_nanos, h.of_micros, h.in_u64)))

  block_sane-Passes : 50 * S.millis < 2 ^ 64 → Passes (block_sane S)
  unfolding block_sane block_execution_weight
  block_sane-Passes lt = mul-Passes _ _ _ (omega (arith, h.of_micros, h.in_u64)) (
      assert-Passes _ _ _ _ (omega (arith, h.of_nanos, h.of_micros, h.in_u64)) (
        mul-Passes _ _ _ lt
          (assert-Passes_last _ _ _ (omega (arith, h.of_nanos, h.of_micros, h.in_u64)))))

  block_sane-Fits : Passes (block_sane S) → 50 * S.millis < 2 ^ 64
  unfolding block_sane block_execution_weight
  block_sane-Fits e =
      (mul-Passes_parts _ _ _ (assert-Passes_rest _ _ _ (mul-Passes_parts _ _ _ e).1)).0

-- Whatever a nanosecond is, if the units are multiples of it that fit `u64` and an access weighs a
-- multiple of what one does, the tests of an extrinsic's weight and of both
-- databases pass, and the test of a block's weight passes exactly if 50 milliseconds fit `u64`.
pub sane-Passes :
    (S : Sdk)
    → IsScale S
    → Passes (extrinsic_sane S)
      × Passes (rocks_db_sane S)
      × Passes (parity_db_sane S)
      × (Passes (block_sane S) ↔ (50 * S.millis < 2 ^ 64))
sane-Passes S h = (
  extrinsic_sane-Passes S h,
  rocks_db_sane-Passes S h,
  parity_db_sane-Passes S h,
  (block_sane-Fits S h, block_sane-Passes S h),
)
