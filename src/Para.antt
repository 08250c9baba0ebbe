-- ===== src/Para.antt =====
-- The parachain node, challenge-3/parachain-node.
pub mod ChainSpec
pub mod Service
pub mod Cli
pub mod Command
pub mod Rpc
pub mod Main
