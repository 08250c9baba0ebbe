-- ===== src/Runtime/Xcm.antt =====
-- challenge-3/runtime/src/configs/xcm.rs: which messages of other chains are executed, and how. The
-- line that includes the file is a comment in configs/mod.rs, so it is not part of the runtime. The
-- rules that the barrier is composed of are the SDK's.
pub mod Configs
pub mod Barrier
use sub0_bangkok_challenges.Common.{ℕ, zero, suc, Bool, true, false, List, [], ◌∷◌}

-- The bodies and the junctions that the code names, and the others by a number.
pub data BodyId : Type 0 where
  executive : BodyId
  other : ℕ → BodyId

pub data Junction : Type 0 where
  parachain : ℕ → Junction
  -- the body, and which part of it
  plurality : BodyId → ℕ → Junction
  other : ℕ → Junction

pub record Location : Type 0 where
  pub parents : ℕ
  pub interior : List Junction

-- `matches!(location.unpack(), (1, []) | (1, [Plurality { id: BodyId::Executive, .. }]))`
unfoldable pub privileged : ℕ → List Junction → Bool
privileged (suc zero) [] = true
privileged (suc zero) (plurality executive part ∷ []) = true
privileged _ _ = false

-- `ParentOrParentsExecutivePlurality::contains`
unfoldable pub contains : Location → Bool
unfolding privileged
contains location = privileged location.parents location.interior

-- `Everything`
abbrev pub everything : Location → Bool
everything location = true

-- `RelayLocation`, `TokenLocation` and `UniversalLocation`, of the parachain's id.
abbrev pub relay_location : Location
relay_location = record { parents = 1; interior = [] }

abbrev pub token_location : Location
token_location = record { parents = 0; interior = [] }

abbrev pub universal_location : ℕ → List Junction
universal_location parachain_id = parachain parachain_id ∷ []

-- The SDK's rules, of which a barrier is made.
pub record Rules : Type 1 where
  pub Rule : Type 0
  pub trailing_set_topic_as_id : Rule → Rule
  pub deny_then_try : Rule → Rule → Rule
  pub tuple : List Rule → Rule
  pub deny_reserve_transfer_to_relay_chain : Rule
  pub take_weight_credit : Rule
  -- the rule, the chain's own location, and the limit of instructions
  pub with_computed_origin : Rule → List Junction → ℕ → Rule
  pub allow_top_level_paid_execution_from : (Location → Bool) → Rule
  pub allow_explicit_unpaid_execution_from : (Location → Bool) → Rule

-- `Barrier`
unfoldable pub barrier : (R : Rules) → ℕ → R.Rule
barrier R parachain_id = R.trailing_set_topic_as_id (
    R.deny_then_try R.deny_reserve_transfer_to_relay_chain (
      R.tuple (
        R.take_weight_credit
        ∷ R.with_computed_origin
            (R.tuple (
              R.allow_top_level_paid_execution_from everything
              ∷ R.allow_explicit_unpaid_execution_from contains
              ∷ []))
            (universal_location parachain_id) 8
        ∷ [])))
