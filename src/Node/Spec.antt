-- ===== src/Node/Spec.antt =====
-- A chain specification: what `GenericChainSpec::builder` collects, with the extensions that
-- parachain-node/src/chain_spec.rs declares.
use sub0_bangkok_challenges.Common.{ℕ, String, List, Option}
use sub0_bangkok_challenges.Node.Json.{Json}

-- `sc_service::ChainType`, the kinds that are used here.
pub data ChainType : Type 0 where
  development local : ChainType

pub record Extensions : Type 0 where
  pub relay_chain : String
  pub para_id : ℕ

pub record ChainSpec : Type 0 where
  pub code : String
  pub extensions : Option Extensions
  pub name : String
  pub id : String
  pub chain_type : ChainType
  pub genesis_patch : Json
  pub protocol_id : Option String
  pub properties : Option (List (String × Json))

-- `Extensions::try_get`
unfoldable pub try_get : ChainSpec → Option Extensions
try_get spec = spec.extensions
