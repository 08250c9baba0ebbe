-- ===== src/Runtime/Apis/Calls.antt =====
-- What the runtime APIs call: the pallets, the executive, and generated code. A call has the state
-- of the chain before and after it, and may panic.
use sub0_bangkok_challenges.Common.{
  ℕ, String, Bool, Option, List, Result, Outcome, done, failed, panicked,
}
use sub0_bangkok_challenges.Runtime.Weights.{Weight}

-- Encoded values.
abbrev pub Bytes : Type 0
Bytes = List ℕ

pub record Types : Type 1 where
  pub State : Type 0
  pub Block : Type 0
  pub Header : Type 0
  pub Extrinsic : Type 0
  pub Hash : Type 0
  pub InherentData : Type 0
  pub CheckInherentsResult : Type 0
  pub ApplyExtrinsicResult : Type 0
  pub TransactionSource : Type 0
  pub TransactionValidity : Type 0
  pub InclusionMode : Type 0
  pub Metadata : Type 0
  pub AuraId : Type 0
  pub GrandpaId : Type 0
  pub EquivocationProof : Type 0
  pub KeyOwnershipProof : Type 0
  pub AccountId : Type 0
  pub RuntimeCall : Type 0
  pub DispatchInfo : Type 0
  pub FeeDetails : Type 0
  pub UpgradeChecks : Type 0
  pub TryStateSelect : Type 0
  pub BenchmarkConfig : Type 0
  pub BenchmarkList : Type 0
  pub BenchmarkBatch : Type 0
  pub StorageInfo : Type 0
  pub StorageKey : Type 0

-- The keys of a session, `impl_opaque_keys!`: there is one, of Aura.
pub record SessionKeys (AuraId : Type 0) : Type 0 where
  pub aura : AuraId

module _ (T : Types) where
  open T use {State}

  abbrev pub Api : Type 0 → Type 0
  Api A = State → Outcome ⊥ A × State

  pub record Pallets : Type 0 where
    -- Aura and GRANDPA
    pub aura_authorities : Api (List T.AuraId)
    pub grandpa_authorities : Api (List (T.GrandpaId × ℕ))
    pub grandpa_set_id : Api ℕ
    -- the executive
    pub execute_block : T.Block → Api (Unit {0})
    pub initialize_block : T.Header → Api T.InclusionMode
    pub apply_extrinsic : T.Extrinsic → Api T.ApplyExtrinsicResult
    pub finalize_block : Api T.Header
    pub validate_transaction :
        T.TransactionSource → T.Extrinsic → T.Hash → Api T.TransactionValidity
    pub offchain_worker : T.Header → Api (Unit {0})
    pub try_runtime_upgrade : T.UpgradeChecks → Api (Result String Weight)
    pub try_execute_block : T.Block → Bool → Bool → T.TryStateSelect → Api (Result String Weight)
    -- generated: the metadata, the inherents and the opaque keys
    pub metadata : Api T.Metadata
    pub metadata_at_version : ℕ → Api (Option T.Metadata)
    pub metadata_versions : Api (List ℕ)
    pub create_extrinsics : T.InherentData → Api (List T.Extrinsic)
    pub check_extrinsics : T.InherentData → T.Block → Api T.CheckInherentsResult
    pub generate : Option Bytes → Api Bytes
    pub decode_into_raw_public_keys : Bytes → Api (Option (List (Bytes × ℕ)))
    -- System and TransactionPayment
    pub account_nonce : T.AccountId → Api ℕ
    pub query_info : T.Extrinsic → ℕ → Api T.DispatchInfo
    pub query_fee_details : T.Extrinsic → ℕ → Api T.FeeDetails
    pub query_call_info : T.RuntimeCall → ℕ → Api T.DispatchInfo
    pub query_call_fee_details : T.RuntimeCall → ℕ → Api T.FeeDetails
    pub weight_to_fee : Weight → Api ℕ
    pub length_to_fee : ℕ → Api ℕ
    -- `genesis_builder_helper`
    pub build_state : Bytes → Api (Result String (Unit {0}))
    pub get_preset : Option String → (String → Option Bytes) → Api (Option Bytes)

-- An answer that does not look at the state.
abbrev pub answer : {S A : Type 0} → A → S → Outcome ⊥ A × S
answer a s = (done a, s)

-- `Result::unwrap`
abbrev pub unwrap_result : {A : Type 0} → Result String A → Outcome ⊥ A
unwrap_result (Result.ok a) = done a
unwrap_result (Result.err x) = panicked x

abbrev pub outcome_map : {A B : Type 0} → (A → Outcome ⊥ B) → Outcome ⊥ A → Outcome ⊥ B
outcome_map f (done a) = f a
outcome_map f (failed x) = failed x
outcome_map f (panicked s) = panicked s

-- `m().unwrap()`
abbrev pub unwrap : {S A : Type 0} → (S → Outcome ⊥ (Result String A) × S) → S → Outcome ⊥ A × S
unwrap m s = let (r, s') = m s in (outcome_map unwrap_result r, s')

-- `?` in code that returns a result.
abbrev pub or_return :
    {S A B : Type 0}
    → Outcome ⊥ (Result String A) × S
    → (A → S → Outcome ⊥ (Result String B) × S)
    → Outcome ⊥ (Result String B) × S
or_return (done (Result.ok a), s) k = k a s
or_return (done (Result.err x), s) k = (done (Result.err x), s)
or_return (failed x, s) k = (failed x, s)
or_return (panicked m, s) k = (panicked m, s)
