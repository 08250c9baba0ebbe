-- ===== src/Solo/Service.antt =====
-- challenge-3/solo-node/src/service.rs
mod Calls
mod Setup
mod Full
pub mod Tasks
pub mod Silent
pub mod Network
pub mod Consensus
pub mod Success
pub mod Served
pub mod Slots
pub mod OnRuntime
unfoldable pub use Calls.*
unfoldable pub use Setup.*
unfoldable pub use Full.*
