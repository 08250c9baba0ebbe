-- ===== src/Tests/Rpc.antt =====
-- The RPC servers of both nodes, over modules that are the list of their methods.
use sub0_bangkok_challenges.Common.{String, true, none, List, [], ◌∷◌, ◌++◌, ok, ◌≡◌, refl}
use sub0_bangkok_challenges.Node.Rpc.Methods.{IsMerge}
use sub0_bangkok_challenges.Solo.Service as SoloService
use sub0_bangkok_challenges.Solo.Service.Served.{rpc_extensions_builder-Methods}
use sub0_bangkok_challenges.Para.Service as ParaService
use sub0_bangkok_challenges.Para.Service.Served.{rpc_builder-Methods}
use sub0_bangkok_challenges.Tests.SoloNode as SoloNode
use sub0_bangkok_challenges.Tests.ParaNode as ParaNode

-- Handles of the SDK are numbers, and the server is the list of its methods.
abbrev solo_node : SoloService.Node SoloNode.sdk
solo_node = record {
  partial = record {
    client = 3;
    backend = 4;
    import_queue = 10;
    keystore = 5;
    select_chain = 6;
    transaction_pool = 7;
    block_import = 8;
    grandpa_link = 9;
    telemetry = none;
  };
  protocol_name = 11;
  notification_service = 12;
  network = 14;
  system_rpc_tx = 15;
  controller = 16;
  starter = 17;
  sync_service = 18;
}

abbrev para_node : ParaService.Node ParaNode.sdk
para_node = record {
  partial = record {
    client = 3;
    backend = 4;
    import_queue = 8;
    keystore = 5;
    transaction_pool = 6;
    block_import = 7;
    telemetry = none;
    telemetry_worker_handle = none;
  };
  relay_chain_interface = 10;
  collator_key = none;
  network = 12;
  system_rpc_tx = 13;
  controller = 14;
  starter = 15;
  sync_service = 16;
}

solo_rpc-IsMerge : IsMerge SoloNode.sdk.rpc (λ m. m) (λ methods. methods)
solo_rpc-IsMerge = record {
  empty_names = refl;
  merge_names = λ m methods d. (m ++ methods, rw (d) refl, refl);
}

para_rpc-IsMerge : IsMerge ParaNode.sdk.rpc (λ m. m) (λ methods. methods)
para_rpc-IsMerge = record {
  empty_names = refl;
  merge_names = λ m methods d. (m ++ methods, rw (d) refl, refl);
}

abbrev all_methods : List String
all_methods =
    "system_accountNextIndex" ∷ "system_dryRun" ∷ "payment_queryInfo" ∷ "payment_queryFeeDetails"
    ∷ []

rpc_extensions_builder-Methods_example :
    (m : List String) × (SoloService.rpc_extensions_builder SoloNode.sdk solo_node true ≡ ok m)
    × (m ≡ all_methods)
rpc_extensions_builder-Methods_example =
    rpc_extensions_builder-Methods SoloNode.sdk (λ m. m) (λ methods. methods) solo_node true
      solo_rpc-IsMerge refl

rpc_builder-Methods_example :
    (m : List String) × (ParaService.rpc_builder ParaNode.sdk para_node true ≡ ok m)
    × (m ≡ all_methods)
rpc_builder-Methods_example =
    rpc_builder-Methods ParaNode.sdk (λ m. m) (λ methods. methods) para_node true para_rpc-IsMerge
      refl
