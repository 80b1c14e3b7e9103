-- ===== src/Engine/Shard.antt =====
-- One shard of `crates/openmemory-engine/src/engine.rs`, with journaling on: its queue, a drain in two parts
-- (under the queue lock, and behind it), the maintenance pass and a start from what a crash left.
-- The counters of `EngineStats`, the condition variables and the threads that wait on them are left out.
pub mod Grouping
pub mod Sound
pub mod Queue
pub mod Settle
pub mod Drain
pub mod Restart
pub mod Reach
pub mod Quiesce
pub mod Fallback
use openmemory.Prelude.{
  ℕ, ◌+◌, Bool, true, false, ◌&&◌, List, [], ◌∷◌, ◌++◌, Option, none, some, map, ltb, eqb, leb,
  if◌then◌else◌,
}
use openmemory.Text.{Text, Externals}
use openmemory.Prelude.Order.{◌==◌, list_ord, nat_ord}
use openmemory.Engine.Batch.{
  RememberRequest, Attempt, success, failure, Fate, Store, remember_batch,
}
use openmemory.Engine.Journal.{
  Extent, Opened, contents, Serde, Journal, append_record, flush, truncate, max, Replayed, replay,
}

pub record DrainGroupKey : Type 0 where
  pub name_lower : Text
  pub entity_type : ℕ
  pub source : Text

module _ ⦃ext : Externals⦄ {O R : Type 0} where
  unfoldable pub from_request : RememberRequest O R → DrainGroupKey
  from_request req = record {
    name_lower = ext.to_lowercase req.name;
    entity_type = req.entity_type;
    source = req.source;
  }

-- The derived `PartialEq`.
unfoldable pub same_key : DrainGroupKey → DrainGroupKey → Bool
same_key a b =
    (a.name_lower == b.name_lower) && eqb a.entity_type b.entity_type && (a.source == b.source)

module _ ⦃ext : Externals⦄ {O R : Type 0} where
  -- `existing.observations.extend(..)` and `existing.relations.extend(..)`
  unfoldable pub extend : RememberRequest O R → RememberRequest O R → RememberRequest O R
  extend existing req = record existing {
    observations = existing.observations ++ req.observations;
    relations = existing.relations ++ req.relations;
  }

  -- `groups` holds where the batch has each key, once: looking a key up is finding it in the batch.
  unfoldable pub add_to_batch :
      List (RememberRequest O R) → RememberRequest O R → List (RememberRequest O R)
  unfolding same_key from_request extend
  add_to_batch [] req = req ∷ []
  add_to_batch (b ∷ batch) req =
      let rest = add_to_batch batch req in
      if same_key (from_request b) (from_request req) then extend b req ∷ batch else b ∷ rest

  unfoldable pub group_requests :
      List (RememberRequest O R) → List (RememberRequest O R) → List (RememberRequest O R)
  unfolding add_to_batch
  group_requests batch [] = batch
  group_requests batch (req ∷ reqs) = group_requests (add_to_batch batch req) reqs

-- `Shard` with its `ShardQueue`; `drained` is the local variable of the drain that is under way.
pub record Shard (O R : Type 0) : Type 0 where
  pub buf : List (ℕ × RememberRequest O R)
  pub next_seq : ℕ
  pub journal : Journal
  pub drained : List (ℕ × RememberRequest O R)
  pub durable : ℕ
  pub failures : List ℕ
  pub store : Store O R

module _ {O R : Type 0} where
  -- `drained.last().map_or(0, ..)`
  unfoldable pub last_seq_of : List (ℕ × RememberRequest O R) → ℕ
  last_seq_of [] = 0
  last_seq_of (x ∷ []) = x.0
  last_seq_of (x ∷ y ∷ xs) = last_seq_of (y ∷ xs)

  -- `try_submit` behind its waits, at the queue.
  unfoldable pub submit :
      Serde (RememberRequest O R) → Extent → Extent → Shard O R → RememberRequest O R → Shard O R
  unfolding append_record
  submit serde first second s req = record s {
    next_seq = s.next_seq + 1;
    journal = append_record serde first second s.journal (s.next_seq + 1) req;
    buf = s.buf ++ ((s.next_seq + 1, req) ∷ []);
  }

  -- `drain_shard` as far as the queue lock is held.
  unfoldable pub begin_drain : Extent → Shard O R → Shard O R
  unfolding flush
  begin_drain extent s = elim s.buf [
    | [] ↦ s
    | x ∷ xs ↦ record s { journal = flush extent s.journal; drained = s.buf; buf = [] }
  ]

  -- `if published_seq > 0 { .. }`
  unfoldable pub publish : ℕ → Shard O R → Shard O R
  unfolding max
  publish published s =
      if ltb 0 published then record s { durable = max s.durable published } else s

  -- The sequential retry. What becomes of a batch is a function of the store and the batch.
  unfoldable pub retry :
      (Store O R → List (RememberRequest O R) → Option ℕ → Fate)
      → List (ℕ × RememberRequest O R)
      → ℕ
      → Shard O R
      → Shard O R
  unfolding remember_batch publish
  retry fates [] published s = publish published s
  retry fates ((seq, req) ∷ rest) published s =
      let answer =
        remember_batch (fates s.store (req ∷ []) (some seq)) (req ∷ []) (some seq) s.store in
      let checkpoint = remember_batch (fates answer.1 [] (some seq)) [] (some seq) answer.1 in
      elim answer.0 [
        | success _ ↦ retry fates rest seq (record s { store = answer.1 })
        | failure _ ↦ elim checkpoint.0 [
          | failure _ ↦
              publish published
                (record s { store = checkpoint.1; buf = ((seq, req) ∷ rest) ++ s.buf })
          | success _ ↦
              retry fates rest seq (record s { store = checkpoint.1; failures = seq ∷ s.failures })
        ]
      ]

  -- `drain_shard` behind the queue lock: the batch, or the retry when it answers an error.
  unfoldable pub commit_drained :
      ⦃ext : Externals⦄
      → (Store O R → List (RememberRequest O R) → Option ℕ → Fate)
      → Shard O R
      → Shard O R
  unfolding remember_batch retry group_requests last_seq_of max
  commit_drained fates s =
      let batch = group_requests [] (map (λ x. x.1) s.drained) in
      let max_seq = last_seq_of s.drained in
      let answer =
        remember_batch (fates s.store batch (some max_seq)) batch (some max_seq) s.store in
      let emptied = record s { drained = []; store = answer.1 } in
      elim answer.0 [
        | success _ ↦ record emptied { durable = max s.durable max_seq }
        | failure _ ↦ retry fates s.drained 0 emptied
      ]

  -- Without entries the drain has returned already.
  unfoldable pub finish_drain :
      ⦃ext : Externals⦄
      → (Store O R → List (RememberRequest O R) → Option ℕ → Fate)
      → Shard O R
      → Shard O R
  unfolding commit_drained
  finish_drain fates s = elim s.drained [ [] ↦ s | _ ∷ _ ↦ commit_drained fates s ]

  -- The part of `maintenance` for one shard, behind a checkpoint that was complete, with the watermark taken before it.
  unfoldable pub reclaim : Extent → ℕ → Bool → Shard O R → Shard O R
  unfolding truncate
  reclaim extent watermark resized s = elim s.buf [
    | _ ∷ _ ↦ s
    | [] ↦
        if eqb s.next_seq watermark
        then record s { journal = truncate extent resized s.journal }
        else s
  ]

  -- The part of `start` for one shard, on the file and the store that were left.
  unfoldable pub start :
      Serde (RememberRequest O R) → Fate → Opened → Store O R → Attempt (Shard O R)
  unfolding replay
  start serde fate file store = elim (replay serde fate file store) [
    | failure e ↦ failure e
    | success out ↦ success (record {
      buf = [];
      next_seq = out.last_seen;
      journal = record { file = elim file [ contents bytes ↦ bytes | _ ↦ [] ]; buffered = [] };
      drained = [];
      durable = out.last_seen;
      failures = [];
      store = out.store;
    })
  ]
