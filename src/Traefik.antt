-- ===== src/Traefik.antt =====
-- The traefik-externals plugin (plugins/traefik-externals): its record store, its DNS handler, and
-- the parser of Traefik's configuration files.
pub mod Records
pub mod Serve
pub mod Pattern
pub mod Env
pub mod Parser
pub mod FileWatcher
pub mod Setup
pub mod Saved
