-- ===== src/Node.antt =====
-- What the two nodes (challenge-3/solo-node and challenge-3/parachain-node) share: the settings of
-- `sc_service::Configuration` that they read, service errors, and the task manager as a log of the
-- tasks that are spawned.
pub mod Json
pub mod Spec
pub mod Crypto
pub mod Genesis
pub mod Task
pub mod Cli
pub mod Rpc
pub mod Build
