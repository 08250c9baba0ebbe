-- ===== src/Tests/Runtime.antt =====
-- Weights, fees and pallet indices at concrete units.
use sub0_bangkok_challenges.Common.{
  ℕ, ◌<◌, ◌↔◌, run, ◌+◌, ◌*◌, ◌/◌, ◌^◌, ◌≡◌, refl, List, [], ◌∷◌, arith,
}
use sub0_bangkok_challenges.Runtime.Constants.{microunit, milliunit}
use sub0_bangkok_challenges.Runtime.Weights.{
  saturating_mul, block_execution_weight, extrinsic_base_weight,
}
use sub0_bangkok_challenges.Runtime.Weights.Checks.{Passes, mul, assert}
use sub0_bangkok_challenges.Runtime.Weights.Sane.{
  Sdk, IsScale, extrinsic_sane, rocks_db_sane, parity_db_sane, block_sane, sane-Passes,
}
use sub0_bangkok_challenges.Runtime.Fees.{
  WeightToFeeCoefficient, IsLinear, polynomial, polynomial_fee,
}

-- In picoseconds.
abbrev sdk : Sdk
sdk = record {
  nanos = 1_000;
  micros = 1_000_000;
  millis = 1_000_000_000;
  reads = λ w n. record { ref_time = saturating_mul w.read n; proof_size = 0 };
  writes = λ w n. record { ref_time = saturating_mul w.write n; proof_size = 0 };
}

sdk-IsScale : IsScale sdk
sdk-IsScale = record {
  of_nanos = refl;
  of_micros = refl;
  in_u64 = omega arith;
  reads_ref_time = λ w n. refl;
  writes_ref_time = λ w n. refl;
}

sane-Passes_example :
    Passes (extrinsic_sane sdk)
    × Passes (rocks_db_sane sdk)
    × Passes (parity_db_sane sdk)
    × (Passes (block_sane sdk) ↔ (50 * 1_000_000_000 < 2 ^ 64))
sane-Passes_example = sane-Passes sdk sdk-IsScale

-- All four pass at these units.
block_sane_in_picoseconds : Passes (block_sane sdk)
unfolding block_sane mul assert block_execution_weight run
block_sane_in_picoseconds = refl

abbrev pub from_rational : ℕ → ℕ → ℕ
from_rational p q = p * 10 ^ 9 / q

-- Positive terms of degree 1, the fraction rounded down.
abbrev pub eval : List WeightToFeeCoefficient → ℕ → ℕ
eval [] weight = 0
eval (c ∷ cs) weight = (c.coeff_integer * weight + c.coeff_frac * weight / 10 ^ 9) + eval cs weight

share_of : (share : ℕ) → share * 10 ^ 9 / 10 ^ 9 ≡ share
share_of share = omega arith

pub eval-IsLinear : IsLinear eval
eval-IsLinear frac integer weight share e = rw (e) (omega arith)

polynomial_fee_example :
    ((k : ℕ) → eval (polynomial from_rational 1_000) (125 * k) ≡ k)
    × (eval (polynomial from_rational 1_000) (extrinsic_base_weight 1_000).ref_time ≡ microunit)
    × (microunit * 1_000 ≡ milliunit)
polynomial_fee_example = polynomial_fee from_rational eval (λ p q _. refl) eval-IsLinear
