-- ===== src/Lib.antt =====
-- bip300-monitor: the record of a BIP300 enforcer's blocks, the walk that fills its history, and the
-- workers that feed it.
--
-- The extractor (extractors/enforcer) reads events from an enforcer and a node and writes them to a
-- PostgreSQL record (shared/src/store.rs, shared/schema). Live events leave holes, so for each slot and
-- for the mainchain a walk (extractors/enforcer/src/backfill.rs) reads the chain newest first, page by
-- page, from a target tip down to a floor. The cursor of a walk is a row of `history_coverage`; a page
-- and the new cursor are one transaction, and a trigger certifies a scope when its row completes.
--
-- The live side (extractors/enforcer/src/runtime.rs, state.rs) subscribes each active slot, reads the
-- enforcer's mutable state whenever the tip moves, samples the auctions of blind-merged mining, and
-- schedules the walks. What it reads goes to the same record in batches and snapshots, each of them one
-- transaction, and each worker reports its health in a row of its own.
--
-- The files:
-- - Base: numbers, Boolean tests, lists and texts that all files share. Failure: `anyhow::Error` as the
--   list of its causes, `Result`, and the classification of RPC errors in backfill.rs. Effect: calls that
--   change a state, and transactions. Slots: `BTreeMap` by slot, as a list of entries in order.
-- - Proto: the messages of proto/event.proto and proto/enforcer_extractor.proto with their methods
--   (shared/src/protobuf).
-- - Store: shared/src/store.rs. Types: its records, and the services of other crates (`Externals`).
--   Rows: the tables as lists of rows, with the constraints of shared/schema/0003_history_coverage.sql
--   and SQL's `UPDATE … WHERE`. Certify: the trigger `certify_history` of
--   shared/schema/0010_official_contract_9.sql. Facts, Instances, Insert: `facts`, `insert` and what
--   they call. Update: transactions, and the trigger and the constraints on an update. History: the
--   operations on a cursor. Page: `record_history_page`. Invariant: the invariant of the coverage
--   table, with children for the cursor operations, for an update of one row (Single), for the floor
--   (Floor), the start of a walk (Begun), a failure and its resumption (Settle), and the page (Page).
--   Update/Proved and Certify/Chain: what the trigger has checked when it lets a row through. Batch:
--   `record_batch`, `record_snapshot` and `record_tip_observation`, on the tables and what a run keeps
--   beside them (Occurrences, Atomic, Snapshots: what a writer leaves). Health: the status of the workers
--   and the end of a run, on the rows of one run (Calls, Registered, Shown, Counted: sequences of calls).
-- - Backfill: extractors/enforcer/src/backfill.rs. Page: the checks on a page and the arithmetic of the
--   cursor (Page/Block: the adapter of a slot's blocks; Page/Chain: what the checks establish). World:
--   the state of a walk, and the environment `Io` that answers for the RPC client, the shutdown channel,
--   the connection and the other workers, whose writes come before each call of the store. Cycle, Round
--   and Turn: `run_history`, cut at its branches in the order of the code. Consistency: the invariant
--   of the coverage table through the walk.
-- - State: extractors/enforcer/src/state.rs, the tracker of readings and the anchors (Tracker: sequences
--   of readings).
-- - Runtime: extractors/enforcer/src/runtime.rs. Instances: the selection of the observed instances.
--   Identity: `validate_chain_identity`. Sampling: the reads that are bracketed by reads of the tip
--   (`collect_bmm_sample`, `collect_initial_snapshot_attempts`, `prepare_stable_observation`). Schedule:
--   `backfill_sidechains`, one turn of its loop as a function of its variables and of an environment
--   (Keeps: properties that a turn keeps; Retries: the timers; Served: the maps by slot when a request is
--   served). Refresh: one turn of `refresh_on_new_blocks`. Stream: one turn of `forward_stream`, with the states that it
--   reaches as a relation.
-- - Fees: `transaction_fee` of extractors/enforcer/src/fees.rs, and the jobs of shared/src/store.rs.
-- - Convert: `bmm_requests` of extractors/enforcer/src/convert.rs, with the checks on its fields.
-- - Config: the validation of the arguments, in extractors/enforcer/src/config.rs.
-- - Tests: the theorems at concrete inputs.
--
-- A transaction is a function from the tables to a result and the tables after it, the old ones where
-- it fails. Heights are natural numbers; `height_to_i32` refuses those from 2^31 on, and the saturating
-- successor of a `u32` is written out. `turns` recurses on the number of turns, since the code's loop has
-- no bound of its own: the client may name a new tip in each turn. A walk that uses its turns up ends
-- with an error of the model, the empty list of causes.
-- The recursive query of the trigger goes one height down in each round, so the greatest height in the
-- table bounds its rounds.
--
-- Not modelled: walks of other scopes that run at the same time (they write other rows of
-- `history_coverage`), time stamps (but for whether `completed_at` is null), logging, the pause between two
-- pages (but for a shutdown during it), and the text of most errors. Hashing, protobuf and JSON encoding
-- and consensus decoding are fields of `Externals`. Of the
-- live side, the traits through which runtime.rs reads (`BmmSource`, `StartupSource`, the source of
-- readings) are records of calls on an environment, and so is what a branch of `select!` gives; the wiring
-- of the workers in `run`, `monitor_sidechains`, `announce_tip_changes`, node.rs, the other conversions and the
-- publication (shared/src/recorder.rs, nats.rs) are not modelled. The inner loop of `backfill_sidechains`
-- has no bound of its own either: `service` recurses on fuel, and ends with an error of the model, the
-- empty list of causes, when it is used up.
pub mod Base
pub mod Failure
pub mod Proto
pub mod Store
pub mod Backfill
pub mod Config
pub mod Convert
pub mod Effect
pub mod Fees
pub mod Runtime
pub mod Slots
pub mod State
pub mod Tests
