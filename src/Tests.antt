-- ===== src/Tests.antt =====
-- The tests: each theorem on the results list that has hypotheses, at a concrete input.
mod Arguments
mod Auctions
mod Fixtures
mod Pages
mod Cursors
mod Proofs
mod Journals
mod Amounts
mod Readings
mod Runs
mod Workers
