-- ===== src/Cluster.antt =====
-- The docker-cluster plugin (plugins/docker-cluster): its messages, its record store, its gossip,
-- and the watcher of Docker containers.
pub mod Message
pub mod Records
pub mod Delegate
pub mod Hostnames
pub mod Watcher
pub mod Serve
pub mod Config
pub mod Manager
pub mod Discovery
pub mod Setup
pub mod Wiring
pub mod Plugin
pub mod Version
