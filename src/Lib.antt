-- ===== src/Lib.antt =====
-- OpenMemory keeps memories of entities, observations and relations in spaces. This library models
-- the crate crates/openmemory-merge, which plans the merge of one immutable snapshot of a space
-- (the source) into another (the target), the write-behind engine of crates/openmemory-engine
-- with its crash journal, the glob matcher of crates/openmemory-watch, and the retries of
-- crates/openmemory-core. The merge planner is pure: it reads the two snapshots, the
-- receipts on identity and a policy, and hands a stream of actions and at last a plan to a sink.
--
-- The parts, and the files under crates/openmemory-merge/src that they model:
--   * Merge.Canonical (canonical.rs): the hasher is the list of bytes that were fed to it, with
--     `encoded_len`; `finish` applies the parameter `blake3` to the bytes.
--   * Merge.Model, Merge.Model.Records and Merge.Model.Encode (model.rs): ids, records, their
--     orders and encodings.
--     Merge.Snapshot (model.rs): `MemorySnapshot` and `compute_snapshot_hash`.
--   * Merge.ThreeWay (three_way.rs): `merge_value`, `merge_fields`, `merge_lifecycle`.
--   * Merge.Evidence and Merge.Evidence.Analysis (evidence.rs): `IdentityPolicy`, `analyze_pair`.
--   * Merge.Discovery and Merge.Discovery.Search (discovery.rs): `CandidateIndex`, its `build` and
--     `discover`.
--   * Merge.Receipt (receipt.rs): the receipts; `SpaceRole` is that of
--     crates/openmemory-core/src/space.rs.
--   * Merge.Planner and its children (planner.rs). Planner: the policy, actions, counts and plan.
--     Sink: `MemoryActionSink`. Stream: the computations of a run and `PlanningState`.
--     Dispositions: `prepare_dispositions`. Verifier: `SnapshotVerifier`. Entities, Observations
--     and Relations: the six visitors that `plan_after_begin` passes to the snapshots. Tokens:
--     encodings, result tokens and `count_action`. Run: `plan_merge` and `verify_plan`.
--   * Proofs: Planner.Emission and its children follow the actions of a run; Planner.Kept follows
--     what a sink keeps. The theorems stand in Published, Verified, Counted, Failed, Bounded,
--     Checked and Justified of Planner, in Planner.Relations.Endpoints,
--     Receipt.Sound, ThreeWay and ThreeWay.Fields. Merge.Examples and its children run the
--     program on small inputs.
--
-- The engine accepts requests into the queue of a shard, writes each to a journal, and commits
-- them later in batches together with a checkpoint; a start replays what the journal has above
-- the checkpoint. The files of it:
--   * Engine.Batch (crates/openmemory-graph/src/batch.rs): the commit of a batch with its
--     checkpoint, `remember_batch` and `get_checkpoint`, as the engine sees them.
--   * Engine.Journal (crates/openmemory-engine/src/journal.rs): `append`, `truncate`, `replay`.
--     Proofs in its children Lines, Replay, Applied, Written,
--     Glued and Unreadable.
--   * Engine.Shard (crates/openmemory-engine/src/engine.rs): `try_submit` at the queue,
--     `drain_shard` in two parts with the lock between them, a shard's part of `maintenance` and
--     of `start_partitioned`. Shard.Grouping is about `DrainGroupKey`; Shard.Sound says what holds
--     between two steps, Queue, Settle, Drain and Restart that each step keeps it, Shard.Reach puts the
--     steps together, Shard.Quiesce has `quiesce`, and Shard.Fallback
--     follows the sequential retry of a drain. Engine.Examples runs them.
--   * Watch.Glob (crates/openmemory-watch/src/events.rs): `matches_simple_glob`; Glob.Reference is
--     what a pattern means, Glob.Loop and Glob.Correct are the proof. Watch.Indexable (events.rs and lib.rs):
--     `is_runtime_indexable` and `has_indexable_extension`. Watch.Examples runs them.
--   * Core.Retry (crates/openmemory-core/src/retry.rs): `with_retry` and `calculate_delay`; its
--     child Calls says which calls are made. The operation, its random numbers and which errors
--     are retryable are parameters; Core.Examples runs it.
--
-- How the code is written down. A function that returns `MergeResult` answers a `Result`; of an
-- error only its code is kept. A step of the planner is `Plan S A = S → Result A × S`, so the
-- sink's state after an error is there too. A closure that a snapshot calls is a function of the
-- variables that it captures, from a record to a record; a snapshot source is its header and, for
-- each of its three streams, the records that it yields and the result with which it ends. A
-- `BTreeMap` or `BTreeSet` is an ascending list; a `HashMap` or `HashSet`, whose order the code
-- never reads, is one as well. Strings are lists of code points and a `Uuid` is a number.
-- Numbers are natural: counters of 64 bits are only ever raised by one for each of fewer than
-- 3,000,000 actions, so they do not wrap. `usize` has 64 bits, and a conversion to `u64`
-- keeps its `unwrap_or(u64::MAX)`. The loop inside the library's binary search takes fuel for as
-- many halvings as the list is long; each halving at least removes one element.
-- The glob loop takes fuel for every round of the pattern at every start of its last star.
-- In the engine what becomes of a batch is an argument of the step: it is committed, rolled back,
-- or committed and answered with an error since the bookkeeping behind the commit fails. The
-- theorems on a whole run leave the last case out, in which the sequential retry applies a batch
-- a second time (a test in Engine.Examples). One shard is modelled, with journaling on; threads
-- are the order of the steps, and the two parts of a drain are two steps. In a run, a crash ends
-- the process and leaves whole lines in the file; a torn line is treated for a replay by itself.
-- How far each write and flush of the journal comes before an error is an argument as well; a run
-- takes them to come through whole, and whole lines to be what `BufWriter` hands over by itself.
-- Sequence numbers are natural numbers, and a checkpoint is below 2^63.
--
-- Parameters (`Externals` of Text): BLAKE3, the hyphenated form of a `Uuid` and the Unicode lower
-- case; no theorem assumes a property of them. `Serde` of Engine.Journal is serde_json and the
-- UTF-8 check of `BufRead::lines`; `SerdeLaws` of Journal.Lines says that a record is one line of
-- UTF-8, is not blank and reads back.
--
-- Not modelled: error messages, serde, `Display` and `FromStr`; the builder methods of the merge
-- records; of the engine the waits of `try_submit`, wake-ups, statistics, the pause gate, tickets,
-- the lease and the loss of power; of a batch the rows that it writes, and an error of the index
-- bookkeeping behind its commit; of the watcher everything but the choice of the files; tests, examples and
-- benchmarks; the other crates, which are databases, services and tools around these.
pub mod Prelude
pub mod Text
pub mod Merge
pub mod Watch
pub mod Engine
pub mod Core
