-- ===== src/Subspace.antt =====
-- src/subspace: the connection of the daemon to a Subspace server.
pub mod Identity
pub mod Auth
pub mod Frames
pub mod Payloads
pub mod Session
pub mod Live
pub mod Join
pub mod Manager
