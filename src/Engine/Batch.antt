-- ===== src/Engine/Batch.antt =====
-- `crates/openmemory-graph/src/batch.rs`, as far as the engine relies on it: a batch of requests that
-- commits in one transaction with a checkpoint, or not at all. The inputs of observations and
-- relations are types that this code passes on unread.
use openmemory.Prelude.{ℕ, List, [], ◌∷◌, ◌++◌, Option, none, some, ltb, if◌then◌else◌}
use openmemory.Text.{Text}

pub record RememberRequest (O R : Type 0) : Type 0 where
  pub name : Text
  -- The discriminant of `EntityType`.
  pub entity_type : ℕ
  pub observations : List O
  pub relations : List R
  pub source : Text

-- What a call of the engine may come back with.
pub data EngineError : Type 0 where
  io_error store_error : EngineError

pub data Attempt (A : Type 0) : Type 0 where
  success : A → Attempt A
  failure : EngineError → Attempt A

-- What becomes of a batch: it is committed; it is rolled back, since a group is invalid or SQLite fails
-- before the commit; or it is committed, and the index bookkeeping behind the commit fails.
pub data Fate : Type 0 where
  taken refused unmarked : Fate

-- The store of the shard's domain: the row of `memory_meta` under the shard's key, and the groups
-- that were committed, the oldest first.
pub record Store (O R : Type 0) : Type 0 where
  pub checkpoint_row : Option ℕ
  pub writes : List (RememberRequest O R)

-- For numbers below 2^63, where `CAST` is exact: `INSERT .. ON CONFLICT(key) DO UPDATE .. WHERE excluded.value > memory_meta.value`
unfoldable pub upsert_checkpoint : ℕ → Option ℕ → Option ℕ
upsert_checkpoint value none = some value
upsert_checkpoint value (some old) = if ltb old value then some value else some old

unfoldable pub commit_checkpoint : Option ℕ → Option ℕ → Option ℕ
unfolding upsert_checkpoint
commit_checkpoint none row = row
commit_checkpoint (some value) row = upsert_checkpoint value row

module _ {O R : Type 0} where
  unfoldable pub commit : List (RememberRequest O R) → Option ℕ → Store O R → Store O R
  unfolding commit_checkpoint
  commit requests checkpoint store = record {
    checkpoint_row = commit_checkpoint checkpoint store.checkpoint_row;
    writes = store.writes ++ requests;
  }

  -- The answer, and the store that the call leaves. Without requests there is no bookkeeping.
  unfoldable pub remember_batch :
      Fate → List (RememberRequest O R) → Option ℕ → Store O R → Attempt (Unit {0}) × Store O R
  unfolding commit
  remember_batch fate [] none store = (success tt, store)
  remember_batch refused [] (some value) store = (failure store_error, store)
  remember_batch taken [] (some value) store = (success tt, commit [] (some value) store)
  remember_batch unmarked [] (some value) store = (success tt, commit [] (some value) store)
  remember_batch refused (r ∷ rs) checkpoint store = (failure store_error, store)
  remember_batch taken (r ∷ rs) checkpoint store = (success tt, commit (r ∷ rs) checkpoint store)
  remember_batch unmarked (r ∷ rs) checkpoint store =
      (failure store_error, commit (r ∷ rs) checkpoint store)

  -- `get_checkpoint(..)?.unwrap_or(0)`
  unfoldable pub checkpoint_of : Store O R → ℕ
  checkpoint_of store = elim store.checkpoint_row [ none ↦ 0 | some value ↦ value ]
