-- ===== src/Runtime/Apis/Queries.antt =====
-- Session keys, nonces and fees.
use sub0_bangkok_challenges.Common.{ℕ, Option, List}
use sub0_bangkok_challenges.Runtime.Weights.{Weight}
use sub0_bangkok_challenges.Runtime.Apis.Calls.{Types, Bytes, Api, Pallets}

module _ {T : Types} (P : Pallets T) where
  -- `SessionKeys`
  unfoldable pub generate_session_keys : Option Bytes → Api T Bytes
  generate_session_keys seed = P.generate seed

  unfoldable pub decode_session_keys : Bytes → Api T (Option (List (Bytes × ℕ)))
  decode_session_keys encoded = P.decode_into_raw_public_keys encoded

  -- `AccountNonceApi`
  unfoldable pub account_nonce : T.AccountId → Api T ℕ
  account_nonce account = P.account_nonce account

  -- `TransactionPaymentApi`
  unfoldable pub query_info : T.Extrinsic → ℕ → Api T T.DispatchInfo
  query_info uxt len = P.query_info uxt len

  unfoldable pub query_fee_details : T.Extrinsic → ℕ → Api T T.FeeDetails
  query_fee_details uxt len = P.query_fee_details uxt len

  unfoldable pub query_weight_to_fee : Weight → Api T ℕ
  query_weight_to_fee weight = P.weight_to_fee weight

  unfoldable pub query_length_to_fee : ℕ → Api T ℕ
  query_length_to_fee length = P.length_to_fee length

  -- `TransactionPaymentCallApi`
  unfoldable pub query_call_info : T.RuntimeCall → ℕ → Api T T.DispatchInfo
  query_call_info call len = P.query_call_info call len

  unfoldable pub query_call_fee_details : T.RuntimeCall → ℕ → Api T T.FeeDetails
  query_call_fee_details call len = P.query_call_fee_details call len

  unfoldable pub call_query_weight_to_fee : Weight → Api T ℕ
  call_query_weight_to_fee weight = P.weight_to_fee weight

  unfoldable pub call_query_length_to_fee : ℕ → Api T ℕ
  call_query_length_to_fee length = P.length_to_fee length
