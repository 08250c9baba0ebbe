-- ===== src/Tests/Settings.antt =====
-- The settings of a node that is an authority, and of one that is not.
use sub0_bangkok_challenges.Common.{true, false, none, some, [], ◌∷◌}
use sub0_bangkok_challenges.Node.Json.{null}
use sub0_bangkok_challenges.Node.Spec.{ChainSpec, development}
use sub0_bangkok_challenges.Node.Task.{Configuration, full, authority, libp2p}

abbrev pub chain_spec : ChainSpec
chain_spec = record {
  code = "wasm";
  extensions = some (record { relay_chain = "rococo-local"; para_id = 2000 });
  name = "Test";
  id = "test";
  chain_type = development;
  genesis_patch = null;
  protocol_id = none;
  properties = none;
}

abbrev pub config_of_authority : Configuration
config_of_authority = record {
  role = authority;
  telemetry_endpoints = some (("wss://telemetry", 0) ∷ []);
  prometheus_registry = none;
  transaction_pool = 8192;
  offchain_worker_enabled = true;
  force_authoring = true;
  disable_grandpa = false;
  network = record { node_name = "alice"; network_backend = libp2p };
  chain_spec = chain_spec;
  database = some ("data" ∷ []);
  base_path = "base" ∷ [];
  wasm_method = 0;
  default_heap_pages = none;
  max_runtime_instances = 8;
  runtime_cache_size = 2;
}

abbrev pub config_of_full_node : Configuration
config_of_full_node = record {
  role = full;
  telemetry_endpoints = some [];
  prometheus_registry = none;
  transaction_pool = 8192;
  offchain_worker_enabled = false;
  force_authoring = false;
  disable_grandpa = true;
  network = record { node_name = "bob"; network_backend = libp2p };
  chain_spec = chain_spec;
  database = none;
  base_path = "base" ∷ [];
  wasm_method = 0;
  default_heap_pages = some 64;
  max_runtime_instances = 8;
  runtime_cache_size = 2;
}
