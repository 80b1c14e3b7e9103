-- ===== src/Merge/Planner/Stream.antt =====
-- What the planner runs on: a computation that may fail and that changes the state of the sink
-- also where it fails, the snapshot readers, and the state that every visitor shares.
use openmemory.Prelude.{List, [], ◌∷◌, ◌++◌, Result, ok, err, MergeErrorCode, leb, if◌then◌else◌}
use openmemory.Text.{Externals}
use openmemory.Merge.Canonical.{CanonicalHasher}
use openmemory.Merge.Model.Records.{EntityRecord, ObservationRecord, RelationRecord, SnapshotHeader}
use openmemory.Merge.Planner.{
  max_actions, MergeAction, ActionCounts, total_actions, MergeAccounting, ActionSink,
}
use openmemory.Merge.Planner.Tokens.{ResultToken, encode_action, result_tokens}

abbrev pub Plan : Type 0 → Type 0 → Type 0
Plan S A = S → Result A × S

module _ {S : Type 0} where
  abbrev pub pure : {A : Type 0} → A → Plan S A
  pure a s = (ok a, s)

  -- A step that leaves the sink alone.
  abbrev pub lift : {A : Type 0} → Result A → Plan S A
  lift r s = (r, s)

  unfoldable pub continue : {A B : Type 0} → Result A → (A → Plan S B) → Plan S B
  continue (ok a) f s = f a s
  continue (err e) f s = (err e, s)

  infixl 5 ◌>>=◌ ◌>>◌
  abbrev pub ◌>>=◌ : {A B : Type 0} → Plan S A → (A → Plan S B) → Plan S B
  ◌>>=◌ m f s = continue (m s).0 f (m s).1

  abbrev pub ◌>>◌ : {A B : Type 0} → Plan S A → Plan S B → Plan S B
  m >> k = m >>= λ _. k

-- What a reader yields: records one by one, and at the end success or an error of its own. A
-- reader passes on the error of its visitor, and yields no record after it.
pub record Stream (A : Type 0) : Type 0 where
  pub records : List A
  pub outcome : Result (Unit {0})

-- The trait `SnapshotSource`. The planner visits each of the three streams once.
pub record SnapshotSource : Type 0 where
  pub header : SnapshotHeader
  pub entities : Stream EntityRecord
  pub observations : Stream ObservationRecord
  pub relations : Stream RelationRecord

-- `PlanningState` without its sink, which is the state of the computation
pub record PlanningState : Type 0 where
  pub action_hash : CanonicalHasher
  pub result_tokens : List ResultToken
  pub counts : ActionCounts
  pub accounting : MergeAccounting

module _ {S A L : Type 0} (body : A → L → Plan S L) where
  unfoldable pub visit_records : List A → L → Plan S L
  visit_records [] l = pure l
  visit_records (x ∷ xs) l = do l' ← body x l; visit_records xs l'

  -- `source.visit_..(&mut |record| ..)?` over the local variables that the visitor captures
  unfoldable pub visit : Stream A → L → Plan S L
  unfolding visit_records
  visit stream l = do l' ← visit_records stream.records l; lift stream.outcome; pure l'

module _ {S : Type 0} (sink : ActionSink S) ⦃ext : Externals⦄ where
  -- `PlanningState::emit`
  unfoldable pub emit : MergeAction → PlanningState → Plan S PlanningState
  emit action state =
      if leb max_actions (total_actions state.counts)
      then lift (err MergeErrorCode.bound_exceeded)
      else do
        sink.emit action
        pure (record state {
          action_hash = encode_action action state.action_hash;
          result_tokens = state.result_tokens ++ result_tokens action;
        })
