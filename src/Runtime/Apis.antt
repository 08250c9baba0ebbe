-- ===== src/Runtime/Apis.antt =====
-- The runtime APIs that the node calls, challenge-3/runtime/src/apis.rs. The pallets, the executive
-- and the code that the SDK's macros generate are parameters: `Calls` has them, the other modules
-- the functions of the APIs.
pub mod Calls
pub mod Chain
pub mod Consensus
pub mod Queries
pub mod Benchmarks
pub mod Selection
