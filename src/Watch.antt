-- ===== src/Watch.antt =====
-- The watch crate: which file events of a watched tree reach the index.
-- `openmemory-watch/src/lib.rs` and the pure part of `events.rs`.
pub mod Glob
pub mod Indexable
mod Examples
