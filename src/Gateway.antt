-- ===== src/Gateway.antt =====
-- The daemon's side of the gateway.
pub mod Tokens
pub mod Protocol
pub mod Connect
pub mod Live
pub mod Task
