-- ===== src/Wake.antt =====
-- src/supervisor.rs, `process_wake_queue`: what becomes of a message that was accepted.
pub mod Routing
pub mod Send
pub mod Process
