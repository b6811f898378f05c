-- ===== src/Stores.antt =====
-- The in-process backing stores of crates/sdkwork-web-core/src/stores.rs. Every operation holds the
-- store's lock from its first read to its last write, so it is one step of the store: a function
-- from the state to the new state and the result. The clock's readings are arguments.
pub mod Admission
pub mod RateLimit
pub mod Idempotency
