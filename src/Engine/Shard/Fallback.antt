-- ===== src/Engine/Shard/Fallback.antt =====
-- The sequential retry of `drain_shard` in `crates/openmemory-engine/src/engine.rs`, on a store that rolls the batch
-- of a drain back and takes its requests one by one.
use openmemory.Prelude.{List, ◌++◌, ◌≡◌}
use openmemory.Engine.Batch.{RememberRequest}
use openmemory.Engine.Shard.{Shard}

module _ {O R : Type 0} where
  -- The queue and the failures stay, and the store has the requests behind what it had.
  abbrev pub Applies : List (RememberRequest O R) → Shard O R → Shard O R → Type 0
  Applies reqs s t =
      (t.store.writes ≡ s.store.writes ++ reqs) × (t.failures ≡ s.failures) × (t.buf ≡ s.buf)
