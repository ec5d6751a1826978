-- ===== src/Backfill.antt =====
-- extractors/enforcer/src/backfill.rs: the walk that recovers one history scope.
pub mod Page
pub mod World
pub mod Cycle
pub mod Round
pub mod Turn
pub mod Consistency
