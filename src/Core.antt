-- ===== src/Core.antt =====
-- The core crate: what the other crates share. `openmemory-core/src/retry.rs`.
pub mod Retry
mod Examples
