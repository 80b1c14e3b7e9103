-- ===== src/Merge/Planner/Observations.antt =====
-- The two observation visitors of `plan_after_begin`.
use openmemory.Prelude.{
  ◌+◌, not, ◌||◌, none, some, Result, ok, err, MergeErrorCode, fail_if, require, if◌then◌else◌,
}
use openmemory.Prelude.Order.{list_ord, nat_ord}
use openmemory.Prelude.Maps.{BTreeMap, BTreeSet, insert, insert_value, contains, contains_key, get}
use openmemory.Text.{Text, Externals}
use openmemory.Merge.Canonical.{Hash, ◌▷◌, new, u16, text, finish}
use openmemory.Merge.Model.{LogicalId, RevisionId, ResultObjectId, Lifecycle, lifecycle_tag}
use openmemory.Merge.Model.Records.{ObservationRecord}
use openmemory.Merge.Model.Encode.{derive, encode_result_id}
use openmemory.Merge.Planner.{
  MergeAction, keep_target_observation, add_observation, merge_observation_origin, ActionCounts,
  ActionSink,
}
use openmemory.Merge.Planner.Verifier.{SnapshotVerifier, verify_observation}
use openmemory.Merge.Planner.Entities.{qualified_collision_key}
use openmemory.Merge.Planner.Stream.{Plan, PlanningState, ◌>>=◌, ◌>>◌, pure, lift, emit}

-- What the two visitors write; the verifier is the one of the snapshot that is visited.
pub record Observations : Type 0 where
  pub verifier : SnapshotVerifier
  pub index : BTreeMap Hash ResultObjectId
  pub ids : BTreeSet Text
  pub qualified : BTreeSet Hash
  pub state : PlanningState

-- The action for one source observation, and what changes with it.
pub record Placed : Type 0 where
  pub action : MergeAction
  pub index : BTreeMap Hash ResultObjectId
  pub qualified : BTreeSet Hash
  pub counts : ActionCounts

module _ ⦃ext : Externals⦄ where
  unfoldable pub observation_key : ResultObjectId → Lifecycle → Text → Hash
  unfolding new encode_result_id u16 text finish
  observation_key entity lifecycle content =
      new "openmemory/observation-index-key/v1"
      ▷ encode_result_id entity
      ▷ u16 (lifecycle_tag lifecycle)
      ▷ text content
      ▷ finish

  -- Merges with the observation of the same meaning, or adds the observation under a derived id.
  unfoldable pub place_observation :
      ObservationRecord → ResultObjectId → Observations → Result Placed
  place_observation o result_entity l =
      let key = observation_key result_entity o.lifecycle o.content in
      elim (get key l.index) [
        | some target_result ↦ ok (record {
          action = merge_observation_origin o target_result result_entity;
          index = l.index;
          qualified = l.qualified;
          counts = record l.state.counts {
            merged_observations = l.state.counts.merged_observations + 1;
          };
        })
        | none ↦
            let result = derive o.address.space o.address.logical_id in
            if contains result l.ids || contains (qualified_collision_key result) l.qualified
            then err MergeErrorCode.qualified_id_collision
            else ok (record {
              action = add_observation o result result_entity;
              index = insert_value key (ResultObjectId.qualified result) l.index;
              qualified = insert (qualified_collision_key result) l.qualified;
              counts = record l.state.counts {
                added_observations = l.state.counts.added_observations + 1;
              };
            })
      ]

  module _ {S : Type 0} (sink : ActionSink S) where
    unfoldable pub visit_target_observation :
        BTreeMap LogicalId RevisionId → ObservationRecord → Observations → Plan S Observations
    visit_target_observation target_entities o l = do
      verifier ← lift (verify_observation o l.verifier)
      lift (
          fail_if (not (contains_key o.entity.logical_id target_entities))
            MergeErrorCode.dangling_endpoint)
      let result = ResultObjectId.target o.address.logical_id
      let result_entity = ResultObjectId.target o.entity.logical_id
      let key = observation_key result_entity o.lifecycle o.content
      lift (fail_if (contains o.address.logical_id l.ids) MergeErrorCode.duplicate_input)
      state ← emit sink (keep_target_observation o result_entity) (record l.state {
        counts = record l.state.counts {
          target_observations = l.state.counts.target_observations + 1;
        };
      })
      pure (record {
        verifier = verifier;
        index = if contains_key key l.index then l.index else insert_value key result l.index;
        ids = insert o.address.logical_id l.ids;
        qualified = l.qualified;
        state = state;
      })

    unfoldable pub visit_source_observation :
        BTreeMap LogicalId ResultObjectId → ObservationRecord → Observations → Plan S Observations
    visit_source_observation source_results o l = do
      verifier ← lift (verify_observation o l.verifier)
      result_entity ←
          lift (require (get o.entity.logical_id source_results) MergeErrorCode.dangling_endpoint)
      placed ← lift (place_observation o result_entity l)
      state ← emit sink placed.action (record l.state {
        counts = record placed.counts {
          source_observations = placed.counts.source_observations + 1;
        };
      })
      pure (record {
        verifier = verifier;
        index = placed.index;
        ids = l.ids;
        qualified = placed.qualified;
        state = state;
      })
