-- ===== src/Store.antt =====
-- shared/src/store.rs: the durable record.
pub mod Types
pub mod Rows
pub mod Certify
pub mod Facts
pub mod Instances
pub mod Insert
pub mod Update
pub mod Batch
pub mod Health
pub mod History
pub mod Page
pub mod Invariant
