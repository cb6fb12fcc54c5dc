-- ===== src/Config.antt =====
-- The configuration (config/config.h and config.cc).
pub mod Yaml
pub mod Casts
pub mod Defs
pub mod Members
pub mod Loading
pub mod Loaded
pub mod Registry
pub mod Lookup
pub mod Listeners
pub mod Runs
