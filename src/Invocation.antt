-- ===== src/Invocation.antt =====
-- crates/kiteframe-provider/src/status.rs: the durable state of an invocation, its transitions and
-- the in-memory store that keeps it.
pub mod State
pub mod Parts
pub mod Stored
pub mod Store
mod Examples
