-- ===== src/Store.antt =====
-- The store of crates/memoryd-core/src/store.rs: its tables, and one module for each group of
-- operations on them.
pub mod Tables
pub mod Audit
pub mod Queue
pub mod Capture
pub mod Staging
pub mod Approvals
pub mod Frames
