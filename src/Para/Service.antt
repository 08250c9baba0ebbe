-- ===== src/Para/Service.antt =====
-- challenge-3/parachain-node/src/service.rs
mod Calls
mod Setup
mod Start
pub mod Tasks
pub mod Silent
pub mod Network
pub mod Reports
pub mod Printed
pub mod Calm
pub mod Success
pub mod Served
unfoldable pub use Calls.*
unfoldable pub use Setup.*
unfoldable pub use Start.*
