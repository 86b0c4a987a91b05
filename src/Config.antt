-- ===== src/Config.antt =====
-- src/config.rs: the configuration of the daemon.
pub mod Error
pub mod Keyed
pub mod Entries
pub mod Url
pub mod Stored
pub mod Load
