-- ===== src/Node/Rpc.antt =====
-- challenge-3/solo-node/src/rpc.rs: `create_full` merges the methods of two extensions into an
-- empty module. What an extension is made of and the merge are the SDK's. Para/Rpc has that of the
-- parachain's node.
pub mod Methods
use sub0_bangkok_challenges.Common.{String, Bool, List, [], Result, and_then}

pub record Types : Type 1 where
  pub Client : Type 0
  pub Pool : Type 0
  pub Module : Type 0
  pub Methods : Type 0
  pub Error : Type 0

module _ (T : Types) where
  pub record FullDeps : Type 0 where
    pub client : T.Client
    pub pool : T.Pool
    pub deny_unsafe : Bool

  pub record Sdk : Type 0 where
    -- `RpcModule::new(())`
    pub empty : T.Module
    -- `System::new(client, pool, deny_unsafe).into_rpc()`
    pub system : T.Client → T.Pool → Bool → T.Methods
    -- `TransactionPayment::new(client).into_rpc()`
    pub transaction_payment : T.Client → T.Methods
    pub merge : T.Module → T.Methods → Result T.Error T.Module

unfoldable pub create_full : {T : Types} → Sdk T → FullDeps T → Result T.Error T.Module
create_full S deps =
    and_then (S.merge S.empty (S.system deps.client deps.pool deps.deny_unsafe))
      (λ module_. S.merge module_ (S.transaction_payment deps.client))
