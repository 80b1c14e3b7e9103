-- ===== src/Merge/Planner/Relations.antt =====
-- The two relation visitors of `plan_after_begin`.
pub mod Endpoints
use openmemory.Prelude.{
  ◌+◌, not, ◌&&◌, ◌||◌, none, some, Result, ok, err, MergeErrorCode, fail_if, require,
  if◌then◌else◌,
}
use openmemory.Prelude.Order.{◌==◌, list_ord, nat_ord}
use openmemory.Prelude.Maps.{BTreeMap, BTreeSet, insert, insert_value, contains, contains_key, get}
use openmemory.Text.{Text, Externals}
use openmemory.Merge.Canonical.{Hash, ◌▷◌, new, u16, text, finish}
use openmemory.Merge.Model.{
  LogicalId, RevisionId, ResultObjectId, result_id_ord, Lifecycle, lifecycle_tag,
}
use openmemory.Merge.Model.Records.{RelationRecord}
use openmemory.Merge.Model.Encode.{derive, encode_result_id}
use openmemory.Merge.Planner.{
  MergePolicy, allows_self_loop, MergeAction, keep_target_relation, add_relation,
  merge_relation_origin, ActionCounts, ActionSink,
}
use openmemory.Merge.Planner.Verifier.{SnapshotVerifier, verify_relation}
use openmemory.Merge.Planner.Entities.{qualified_collision_key}
use openmemory.Merge.Planner.Stream.{Plan, PlanningState, ◌>>=◌, ◌>>◌, pure, lift, emit}

-- What the two visitors write; the verifier is the one of the snapshot that is visited.
pub record Relations : Type 0 where
  pub verifier : SnapshotVerifier
  pub index : BTreeMap Hash ResultObjectId
  pub ids : BTreeSet Text
  pub qualified : BTreeSet Hash
  pub state : PlanningState

-- The action for one source relation, and what changes with it.
pub record Placed : Type 0 where
  pub action : MergeAction
  pub index : BTreeMap Hash ResultObjectId
  pub qualified : BTreeSet Hash
  pub counts : ActionCounts

module _ ⦃ext : Externals⦄ where
  unfoldable pub relation_key : ResultObjectId → Text → ResultObjectId → Lifecycle → Hash
  unfolding new encode_result_id text u16 finish
  relation_key subject predicate object lifecycle =
      new "openmemory/relation-index-key/v1"
      ▷ encode_result_id subject
      ▷ text predicate
      ▷ encode_result_id object
      ▷ u16 (lifecycle_tag lifecycle)
      ▷ finish

  -- Merges with the relation of the same meaning, or adds the relation under a derived id.
  unfoldable pub place_relation :
      RelationRecord → ResultObjectId → ResultObjectId → Relations → Result Placed
  place_relation r subject object l =
      let key = relation_key subject r.predicate object r.lifecycle in
      elim (get key l.index) [
        | some target_result ↦ ok (record {
          action = merge_relation_origin r target_result subject object;
          index = l.index;
          qualified = l.qualified;
          counts = record l.state.counts { merged_relations = l.state.counts.merged_relations + 1 };
        })
        | none ↦
            let result = derive r.address.space r.address.logical_id in
            if contains result l.ids || contains (qualified_collision_key result) l.qualified
            then err MergeErrorCode.qualified_id_collision
            else ok (record {
              action = add_relation r result subject object;
              index = insert_value key (ResultObjectId.qualified result) l.index;
              qualified = insert (qualified_collision_key result) l.qualified;
              counts = record l.state.counts {
                added_relations = l.state.counts.added_relations + 1;
              };
            })
      ]

  module _ {S : Type 0} (sink : ActionSink S) where
    unfoldable pub visit_target_relation :
        BTreeMap LogicalId RevisionId → RelationRecord → Relations → Plan S Relations
    visit_target_relation target_entities r l = do
      verifier ← lift (verify_relation r l.verifier)
      lift (
          fail_if
            (not (contains_key r.subject.logical_id target_entities)
              || not (contains_key r.object.logical_id target_entities))
            MergeErrorCode.dangling_endpoint)
      let subject = ResultObjectId.target r.subject.logical_id
      let object = ResultObjectId.target r.object.logical_id
      let key = relation_key subject r.predicate object r.lifecycle
      let result = ResultObjectId.target r.address.logical_id
      lift (
          fail_if (contains_key key l.index || contains r.address.logical_id l.ids)
            MergeErrorCode.duplicate_input)
      state ← emit sink (keep_target_relation r subject object) (record l.state {
        counts = record l.state.counts { target_relations = l.state.counts.target_relations + 1 };
      })
      pure (record {
        verifier = verifier;
        index = insert_value key result l.index;
        ids = insert r.address.logical_id l.ids;
        qualified = l.qualified;
        state = state;
      })

    unfoldable pub visit_source_relation :
        MergePolicy
        → BTreeMap LogicalId ResultObjectId
        → RelationRecord
        → Relations
        → Plan S Relations
    visit_source_relation policy source_results r l = do
      verifier ← lift (verify_relation r l.verifier)
      subject ←
          lift (require (get r.subject.logical_id source_results) MergeErrorCode.dangling_endpoint)
      object ←
          lift (require (get r.object.logical_id source_results) MergeErrorCode.dangling_endpoint)
      lift (
          fail_if (subject == object && not (allows_self_loop policy r.predicate))
            MergeErrorCode.three_way_conflict)
      placed ← lift (place_relation r subject object l)
      state ← emit sink placed.action (record l.state {
        counts = record placed.counts { source_relations = placed.counts.source_relations + 1 };
      })
      pure (record {
        verifier = verifier;
        index = placed.index;
        ids = l.ids;
        qualified = placed.qualified;
        state = state;
      })
