-- ===== src/Runtime.antt =====
-- src/runtime_store.rs and src/retry.rs: the store of one server, with its deduplication of
-- messages and its guard against reconnect storms.
pub mod Retry
pub mod Store
