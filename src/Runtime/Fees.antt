-- ===== src/Runtime/Fees.antt =====
-- `WeightToFee`, challenge-3/runtime/src/lib.rs. `Perbill::from_rational` and the evaluation of the
-- polynomial are the SDK's.
use sub0_bangkok_challenges.Common.{
  ℕ, ◌+◌, ◌*◌, ◌/◌, ◌%◌, ◌^◌, ◌<◌, ◌≡◌, refl, ◌∙◌, Bool, false, List, [], ◌∷◌, arith,
}
use sub0_bangkok_challenges.Runtime.Constants.{milliunit, microunit}
use sub0_bangkok_challenges.Runtime.Weights.{extrinsic_base_weight}

-- A term of the polynomial; `coeff_frac` is in parts of 10 ^ 9.
pub record WeightToFeeCoefficient : Type 0 where
  pub degree : ℕ
  pub negative : Bool
  pub coeff_frac : ℕ
  pub coeff_integer : ℕ

module _ (from_rational : ℕ → ℕ → ℕ) (nanos : ℕ) where
  unfoldable pub polynomial : List WeightToFeeCoefficient
  polynomial =
      let p = milliunit / 10 in
      let q = 100 * (extrinsic_base_weight nanos).ref_time in
      record {
        degree = 1;
        negative = false;
        coeff_frac = from_rational (p % q) q;
        coeff_integer = p / q;
      }
      ∷ []

-- `Perbill::from_rational(p, q)` is p / q in parts of 10 ^ 9, rounded down, for a proper fraction.
abbrev pub IsFromRational : (ℕ → ℕ → ℕ) → Type 0
IsFromRational f = (p q : ℕ) → p < q → f p q ≡ p * 10 ^ 9 / q

-- A single positive term of degree 1 is worth the integer part times the weight and the fraction's
-- share of it, at weights of which that share is a whole number, `share`.
abbrev pub IsLinear : (List WeightToFeeCoefficient → ℕ → ℕ) → Type 0
IsLinear eval =
    (frac integer weight share : ℕ)
    → frac * weight ≡ share * 10 ^ 9
    → eval
        (record { degree = 1; negative = false; coeff_frac = frac; coeff_integer = integer } ∷ [])
        weight
      ≡ integer * weight + share

-- The polynomial is 8_000_000 / 10 ^ 9 of the weight, that is 1 / 125.
abbrev coefficient : WeightToFeeCoefficient
coefficient = record { degree = 1; negative = false; coeff_frac = 8_000_000; coeff_integer = 0 }

polynomial_lem :
    (from_rational : ℕ → ℕ → ℕ)
    → IsFromRational from_rational
    → polynomial from_rational 1_000 ≡ coefficient ∷ []
unfolding polynomial extrinsic_base_weight
polynomial_lem from_rational rational = rw (rational 100_000_000 12_500_000_000 (omega arith))

module _ (from_rational : ℕ → ℕ → ℕ) (eval : List WeightToFeeCoefficient → ℕ → ℕ) where
  eval-polynomial :
      IsFromRational from_rational
      → IsLinear eval
      → (k : ℕ) → eval (polynomial from_rational 1_000) (125 * k) ≡ k
  eval-polynomial rational linear k =
      rw (polynomial_lem from_rational rational)
        (linear 8_000_000 0 (125 * k) k (omega arith) ∙ omega arith)

  -- If fractions are rounded down and linear polynomials are evaluated exactly, a reference time of
  -- 125 units costs one indivisible unit of the balance, at every multiple. So
  -- the weight of an empty extrinsic costs a MICROUNIT, the thousandth part of a MILLIUNIT.
  pub polynomial_fee :
      IsFromRational from_rational
      → IsLinear eval
      → ((k : ℕ) → eval (polynomial from_rational 1_000) (125 * k) ≡ k)
        × (eval (polynomial from_rational 1_000) (extrinsic_base_weight 1_000).ref_time ≡ microunit)
        × (microunit * 1_000 ≡ milliunit)
  unfolding extrinsic_base_weight
  polynomial_fee rational linear =
      (eval-polynomial rational linear, eval-polynomial rational linear 1_000_000, refl)
