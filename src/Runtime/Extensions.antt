-- ===== src/Runtime/Extensions.antt =====
-- `SignedExtra`, challenge-3/runtime/src/lib.rs: the checks of a signed transaction, in their
-- order.
use sub0_bangkok_challenges.Common.{List, [], ◌∷◌}

pub data SignedExtension : Type 0 where
  check_non_zero_sender check_spec_version check_tx_version check_genesis check_era check_nonce
        check_weight charge_transaction_payment check_metadata_hash :
      SignedExtension

abbrev pub signed_extra : List SignedExtension
signed_extra =
    check_non_zero_sender ∷ check_spec_version ∷ check_tx_version ∷ check_genesis ∷ check_era
    ∷ check_nonce ∷ check_weight ∷ charge_transaction_payment ∷ check_metadata_hash ∷ []
