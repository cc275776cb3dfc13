-- ===== src/Tests.antt =====
-- Runs of the models at concrete inputs, and instances of the theorems.
pub mod Data
mod Stores
mod Gossip
mod Containers
mod Serving
mod Configs
mod Parsing
mod Loading
mod Setups
mod Cycles
mod Watchers
mod Published
mod TraefikSetup
mod Plugin
mod Racing
mod Saved
