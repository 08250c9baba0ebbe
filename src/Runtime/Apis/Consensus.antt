-- ===== src/Runtime/Apis/Consensus.antt =====
-- Aura's slots and authorities, and GRANDPA's authorities. Equivocations are not reported.
use sub0_bangkok_challenges.Common.{ℕ, Option, none, List}
use sub0_bangkok_challenges.Runtime.Constants as Constants
use sub0_bangkok_challenges.Runtime.Apis.Calls.{Types, Api, Pallets, answer}

module _ {T : Types} (P : Pallets T) where
  -- `AuraApi`, in milliseconds
  unfoldable pub slot_duration : Api T ℕ
  slot_duration = answer Constants.slot_duration

  unfoldable pub authorities : Api T (List T.AuraId)
  authorities = P.aura_authorities

  -- `GrandpaApi`
  unfoldable pub grandpa_authorities : Api T (List (T.GrandpaId × ℕ))
  grandpa_authorities = P.grandpa_authorities

  unfoldable pub current_set_id : Api T ℕ
  current_set_id = P.grandpa_set_id

  unfoldable pub submit_report_equivocation_unsigned_extrinsic :
      T.EquivocationProof → T.KeyOwnershipProof → Api T (Option (Unit {0}))
  submit_report_equivocation_unsigned_extrinsic _equivocation_proof _key_owner_proof = answer none

  unfoldable pub generate_key_ownership_proof : ℕ → T.GrandpaId → Api T (Option T.KeyOwnershipProof)
  generate_key_ownership_proof _set_id _authority_id = answer none
