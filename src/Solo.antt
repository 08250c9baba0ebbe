-- ===== src/Solo.antt =====
-- The solochain node, challenge-3/solo-node.
pub mod Service
pub mod ChainSpec
pub mod Cli
pub mod Command
pub mod Main
