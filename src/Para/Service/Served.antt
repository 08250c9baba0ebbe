-- ===== src/Para/Service/Served.antt =====
-- The RPC server that the parachain's node makes.
use sub0_bangkok_challenges.Common.{String, Bool, true, List, ◌++◌, ok, map_err, ◌≡◌, ap}
use sub0_bangkok_challenges.Node.Rpc.Methods.{disjoint, IsMerge, create_full-Methods}
use sub0_bangkok_challenges.Node.Task.{application}
use sub0_bangkok_challenges.Para.Service.{Types, Sdk, Node, rpc_builder}

module _ {T : Types} (S : Sdk T) where
  open S use {rpc}

  -- If merging adds methods whose names are new, and the two extensions have no method's name in
  -- common, the builder makes a server for the node's own client and transaction pool, whether
  -- unsafe calls are denied or not: it has the methods of the system extension, which is told of
  -- the denial, and then those of transaction payment.
  pub rpc_builder-Methods :
      (names : T.RpcModule → List String) (names_of : T.RpcMethods → List String) (n : Node S)
      (deny_unsafe : Bool)
      → IsMerge rpc names names_of
      → disjoint
          (names_of (rpc.system n.partial.client n.partial.transaction_pool deny_unsafe))
          (names_of (rpc.transaction_payment n.partial.client))
        ≡ true
      → (m : T.RpcModule) × (rpc_builder S n deny_unsafe ≡ ok m)
        × (names m
            ≡ names_of (rpc.system n.partial.client n.partial.transaction_pool deny_unsafe)
              ++ names_of (rpc.transaction_payment n.partial.client))
  unfolding rpc_builder
  rpc_builder-Methods names names_of n deny_unsafe h d =
      let (m, _, e, all) =
        create_full-Methods rpc names names_of
          (record {
            client = n.partial.client;
            pool = n.partial.transaction_pool;
            deny_unsafe = deny_unsafe;
          })
          h d in
      (m, ap (map_err application) e, all)
