-- ===== src/Merge.antt =====
-- The crate `crates/openmemory-merge`: identity evidence and the semantic merge planner.
pub mod Canonical
pub mod Model
pub mod ThreeWay
pub mod Evidence
pub mod Discovery
pub mod Receipt
pub mod Planner
pub mod Snapshot
pub mod Examples
