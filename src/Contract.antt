-- ===== src/Contract.antt =====
-- crates/kiteframe-contract: the data that the other components exchange.
pub mod Diagnostic
pub mod Refs
pub mod Trace
pub mod Capability
