-- ===== src/Runtime.antt =====
-- extractors/enforcer/src/runtime.rs: the workers of the extractor, and what they share.
pub mod Instances
pub mod Identity
pub mod Sampling
pub mod Schedule
pub mod Refresh
pub mod Stream
