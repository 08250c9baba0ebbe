-- ===== src/Para/Rpc.antt =====
-- challenge-3/parachain-node/src/rpc.rs: the server of the parachain's node. `FullDeps` and what
-- the SDK does are those of the solochain's node.
use sub0_bangkok_challenges.Common.{Result, and_then}
use sub0_bangkok_challenges.Node.Rpc.{Types, FullDeps, Sdk}

unfoldable pub create_full : {T : Types} → Sdk T → FullDeps T → Result T.Error T.Module
create_full S deps =
    and_then (S.merge S.empty (S.system deps.client deps.pool deps.deny_unsafe))
      (λ module_. S.merge module_ (S.transaction_payment deps.client))
