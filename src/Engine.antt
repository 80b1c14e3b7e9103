-- ===== src/Engine.antt =====
-- The engine crate: the write-behind queue of one shard, its journal, and the store that it commits into.
-- `openmemory-engine/src/{engine,journal}.rs` and `openmemory-graph/src/batch.rs`.
pub mod Batch
pub mod Journal
pub mod Shard
mod Examples
