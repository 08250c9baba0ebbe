-- ===== src/Tests.antt =====
-- Runs at concrete settings, keys and SDK calls.
mod Settings
mod Keys
mod Runtime
mod SoloNode
mod ParaNode
mod Commands
mod LightBlocks
mod LightRounds
mod Rpc
mod Apis
mod Xcm
mod BuiltIn
mod Endless
