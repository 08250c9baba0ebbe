-- ===== src/Node/Task.antt =====
-- Settings, errors and tasks.
use sub0_bangkok_challenges.Common.{ℕ, String, Bool, true, false, List, [], ◌∷◌, Option, none, some}
use sub0_bangkok_challenges.Node.Spec.{ChainSpec}

-- `sc_service::Role`
pub data Role : Type 0 where
  full authority : Role

abbrev pub is_authority : Role → Bool
is_authority full = false
is_authority authority = true

-- An endpoint's address and verbosity.
abbrev pub Endpoints : Type 0
Endpoints = List (String × ℕ)

pub data NetworkBackendType : Type 0 where
  libp2p litep2p : NetworkBackendType

-- `NetworkConfiguration`, as far as it is read by name.
pub record NetworkConfiguration : Type 0 where
  pub node_name : String
  pub network_backend : NetworkBackendType

-- A path by its components; `join` of one component is `++`.
abbrev pub FilePath : Type 0
FilePath = List String

-- The settings of `sc_service::Configuration` that the nodes read by name.
pub record Configuration : Type 0 where
  pub role : Role
  pub telemetry_endpoints : Option Endpoints
  pub prometheus_registry : Option String
  pub transaction_pool : ℕ
  pub offchain_worker_enabled : Bool
  pub force_authoring : Bool
  pub disable_grandpa : Bool
  pub network : NetworkConfiguration
  pub chain_spec : ChainSpec
  -- `database.path()`
  pub database : Option FilePath
  pub base_path : FilePath
  pub wasm_method : ℕ
  pub default_heap_pages : Option ℕ
  pub max_runtime_instances : ℕ
  pub runtime_cache_size : ℕ

-- `sc_service::Error`: what the SDK's calls return, converted by `?`, and a boxed foreign error.
pub data ServiceError : Type 0 where
  sdk : String → ServiceError
  application : String → ServiceError

-- One call of `spawn` or `spawn_blocking` on a handle of the task manager. If an essential task
-- ends, the node goes down with it.
pub record Task : Type 0 where
  pub name : String
  pub group : Option String
  pub essential : Bool
  pub blocking : Bool

abbrev pub plain : String → Option String → Task
plain name group = record { name = name; group = group; essential = false; blocking = false }

-- `.filter(|x| !x.is_empty())`: no endpoints is no telemetry.
unfoldable pub active_endpoints : Option Endpoints → Option Endpoints
active_endpoints none = none
active_endpoints (some []) = none
active_endpoints (some (e ∷ es)) = some (e ∷ es)
