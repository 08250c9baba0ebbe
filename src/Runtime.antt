-- ===== src/Runtime.antt =====
-- The runtime that the nodes execute, challenge-3/runtime.
pub mod Constants
pub mod Weights
pub mod Configs
pub mod Fees
pub mod Pallets
pub mod Limits
pub mod Extensions
pub mod Xcm
pub mod Apis
pub mod Build
