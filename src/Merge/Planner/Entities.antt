-- ===== src/Merge/Planner/Entities.antt =====
-- The two entity visitors of `plan_after_begin`.
use Prim.Native.Nat.Ordering.{lt, eq, gt}
use openmemory.Prelude.{
  ℕ, zero, suc, ◌+◌, ◌-◌, ◌/◌, Bool, true, false, not, ◌||◌, Option, none, some, List, length,
  get_elem?, set, Result, ok, err, MergeErrorCode, fail_if, require, eqb, leb, if◌then◌else◌,
}
use openmemory.Prelude.Results
use openmemory.Prelude.Order.{◌==◌, list_ord, nat_ord}
use openmemory.Prelude.Maps.{BTreeMap, BTreeSet, insert, insert_value, contains, contains_key, get}
use openmemory.Text.{Text, Externals}
use openmemory.Merge.Canonical.{Hash, ◌▷◌, new, text, finish}
use openmemory.Merge.Model.{LogicalId, RevisionId, QualifiedObjectId, ResultObjectId}
use openmemory.Merge.Model.Records.{EntityRecord, SnapshotHeader}
use openmemory.Merge.Model.Encode.{derive}
use openmemory.Merge.Planner.{
  EntityDisposition, keep_target_entity, apply_entity_disposition, ActionCounts, ActionSink,
}
use openmemory.Merge.Planner.Dispositions.{PlannedDisposition, PlannedEntity, coalesce, add}
use openmemory.Merge.Planner.Verifier.{SnapshotVerifier, verify_entity}
use openmemory.Merge.Planner.Stream.{Plan, PlanningState, ◌>>=◌, ◌>>◌, pure, lift, emit}

-- What the visitor of the target's entities writes.
pub record TargetEntities : Type 0 where
  pub verifier : SnapshotVerifier
  pub entities : BTreeMap LogicalId RevisionId
  pub ids : BTreeSet Text
  pub state : PlanningState

-- What the visitor of the source's entities writes.
pub record SourceEntities : Type 0 where
  pub verifier : SnapshotVerifier
  pub results : BTreeMap LogicalId ResultObjectId
  pub qualified : BTreeSet Hash
  pub seen : List Bool
  pub seen_count : ℕ
  pub state : PlanningState

-- What the visitor of the source's entities reads.
pub record EntityContext : Type 0 where
  pub planned : List PlannedEntity
  pub target_header : SnapshotHeader
  pub source_header : SnapshotHeader
  pub target_entities : BTreeMap LogicalId RevisionId
  pub target_ids : BTreeSet Text

-- The disposition of one source entity, with the counts and keys that go with it.
pub record Disposed : Type 0 where
  pub public : EntityDisposition
  pub result : ResultObjectId
  pub qualified : BTreeSet Hash
  pub counts : ActionCounts

-- The position where the halving of `size` entries from `base` on ends.
unfoldable pub search_base : ℕ → LogicalId → List PlannedEntity → ℕ → ℕ → ℕ
search_base zero id planned base size = base
search_base (suc fuel) id planned base size =
    let half = size / 2 in
    let mid = base + half in
    let base' : ℕ = elim (get_elem? planned mid) [
      | none ↦ base
      | some candidate ↦ elim (list_ord.cmp candidate.logical_id id) [
        | gt ↦ base
        | lt ↦ mid
        | eq ↦ mid
      ]
    ] in
    let rest = search_base fuel id planned base' (size - half) in if leb size 1 then base else rest

-- `planned.binary_search_by(..)` by logical id, with fuel for every halving.
unfoldable pub binary_search : LogicalId → List PlannedEntity → Option ℕ
unfolding search_base
binary_search id planned =
    let base = search_base (length planned) id planned 0 (length planned) in
    elim (get_elem? planned base) [
      | none ↦ none
      | some candidate ↦ if candidate.logical_id == id then some base else none
    ]

-- `seen_dispositions[index]`, which is in range for the index of a planned entity
abbrev pub seen_at : List Bool → ℕ → Bool
seen_at seen index = elim (get_elem? seen index) [ none ↦ false | some b ↦ b ]

module _ ⦃ext : Externals⦄ where
  unfoldable pub qualified_collision_key : QualifiedObjectId → Hash
  unfolding new text finish
  qualified_collision_key value =
      new "openmemory/qualified-id-collision-key/v1" ▷ text value ▷ finish

  -- The `match` on the planned disposition.
  unfoldable pub dispose_record :
      EntityContext → EntityRecord → PlannedDisposition → SourceEntities → Result Disposed
  dispose_record ctx r (coalesce target receipt) l =
      Results.◌>>=◌
        (require (get target.address.logical_id ctx.target_entities) MergeErrorCode.stale_receipt)
        λ target_revision.
          Results.◌>>=◌
            (fail_if
              (not (eqb target_revision target.revision)
                || not (eqb target.snapshot ctx.target_header.snapshot_id))
              MergeErrorCode.stale_receipt)
            λ _. ok (record {
              public = EntityDisposition.coalesce r.address target.address receipt;
              result = ResultObjectId.target target.address.logical_id;
              qualified = l.qualified;
              counts = record l.state.counts {
                coalesced_entities = l.state.counts.coalesced_entities + 1;
              };
            })
  dispose_record ctx r (add reason receipt) l =
      let qualified = derive r.address.space r.address.logical_id in
      if contains qualified ctx.target_ids
        || contains (qualified_collision_key qualified) l.qualified
      then err MergeErrorCode.qualified_id_collision
      else ok (record {
        public = EntityDisposition.add_distinct r.address qualified reason receipt;
        result = ResultObjectId.qualified qualified;
        qualified = insert (qualified_collision_key qualified) l.qualified;
        counts = record l.state.counts { added_entities = l.state.counts.added_entities + 1 };
      })

  module _ {S : Type 0} (sink : ActionSink S) where
    unfoldable pub visit_target_entity : EntityRecord → TargetEntities → Plan S TargetEntities
    visit_target_entity r l = do
      verifier ← lift (verify_entity r l.verifier)
      lift (fail_if (contains_key r.address.logical_id l.entities) MergeErrorCode.duplicate_input)
      state ← emit sink (keep_target_entity r) (record l.state {
        counts = record l.state.counts { target_entities = l.state.counts.target_entities + 1 };
      })
      pure (record {
        verifier = verifier;
        entities = insert_value r.address.logical_id r.revision l.entities;
        ids = insert r.address.logical_id l.ids;
        state = state;
      })

    unfoldable pub visit_source_entity :
        EntityContext → EntityRecord → SourceEntities → Plan S SourceEntities
    visit_source_entity ctx r l = do
      verifier ← lift (verify_entity r l.verifier)
      index ← lift (
          require (binary_search r.address.logical_id ctx.planned)
            MergeErrorCode.discovery_incomplete)
      expected ← lift (require (get_elem? ctx.planned index) MergeErrorCode.discovery_incomplete)
      lift (
          fail_if
            (not (eqb expected.revision r.revision)
              || not (eqb expected.snapshot ctx.source_header.snapshot_id))
            MergeErrorCode.stale_receipt)
      lift (fail_if (seen_at l.seen index) MergeErrorCode.duplicate_input)
      disposed ← lift (dispose_record ctx r expected.disposition l)
      state ← emit sink (apply_entity_disposition r disposed.public) (record l.state {
        counts = record disposed.counts { source_entities = disposed.counts.source_entities + 1 };
      })
      pure (record {
        verifier = verifier;
        results = insert_value r.address.logical_id disposed.result l.results;
        qualified = disposed.qualified;
        seen = set l.seen index true;
        seen_count = l.seen_count + 1;
        state = state;
      })
