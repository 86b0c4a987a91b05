-- ===== src/Storage.antt =====
-- src/storage.rs: the delivery store.
pub mod Schema
pub mod Tables
pub mod Action
pub mod Events
pub mod Sinks
pub mod Store
pub mod Gate
