-- ===== src/Merge/Planner/Run.antt =====
-- `plan_merge`, `plan_after_begin` and the independent check `verify_plan`.
use openmemory.Prelude.{
  ◌+◌, Bool, false, not, ◌||◌, List, [], length, replicate, count_if, concat_map, foldl, Result, ok,
  err, MergeErrorCode, fail_if, eqb, if◌then◌else◌,
}
use openmemory.Prelude.Results
use openmemory.Prelude.Order.{◌==◌, list_ord, nat_ord}
use openmemory.Prelude.Sorting.{sort_by, dedup}
use openmemory.Text.{Externals}
use openmemory.Merge.Canonical.{new, u64_of_usize, each, finish}
use openmemory.Merge.Model.Records.{SnapshotHeader}
use openmemory.Merge.Planner.{
  merge_plan_version, MergePolicy, PlanningReceipts, MergeAction, ActionCounts, no_counts,
  counts_ord, total_actions, MergeAccounting, PlanPrelude, MergePlan, ActionSink,
}
use openmemory.Merge.Planner.Tokens.{
  ResultToken, token_ord, encode_action, result_tokens, hash_result_tokens, hash_plan, count_action,
}
use openmemory.Merge.Planner.Dispositions.{PlannedEntity, prepare_dispositions}
use openmemory.Merge.Planner.Verifier.{
  SnapshotVerifier, new_verifier, end_entities, end_observations, finish_verifier,
}
use openmemory.Merge.Planner.Stream.{
  Plan, PlanningState, SnapshotSource, ◌>>=◌, ◌>>◌, pure, lift, visit,
}
use openmemory.Merge.Planner.Entities.{
  EntityContext, TargetEntities, SourceEntities, visit_target_entity, visit_source_entity,
}
use openmemory.Merge.Planner.Observations.{visit_target_observation, visit_source_observation}
use openmemory.Merge.Planner.Relations.{visit_target_relation, visit_source_relation}

unfoldable pub validate_headers : SnapshotHeader → SnapshotHeader → Result (Unit {0})
validate_headers target source =
    if not (eqb target.format_version 1) || not (eqb source.format_version 1)
    then err MergeErrorCode.invalid_input
    else if eqb target.space_id source.space_id
    then err MergeErrorCode.invalid_input
    else ok tt

unfoldable pub validate_accounting :
    ActionCounts → MergeAccounting → SnapshotHeader → SnapshotHeader → Result (Unit {0})
validate_accounting c a target source =
    if not (eqb c.target_entities target.entity_count)
      || not (eqb c.source_entities source.entity_count)
      || not (eqb c.target_observations target.observation_count)
      || not (eqb c.source_observations source.observation_count)
      || not (eqb c.target_relations target.relation_count)
      || not (eqb c.source_relations source.relation_count)
      || not (eqb (c.coalesced_entities + c.added_entities) c.source_entities)
      || not (eqb (c.added_observations + c.merged_observations) c.source_observations)
      || not (eqb (c.added_relations + c.merged_relations) c.source_relations)
      || not (eqb a.result_entities (c.target_entities + c.added_entities))
      || not (eqb a.result_observations (c.target_observations + c.added_observations))
      || not (eqb a.result_relations (c.target_relations + c.added_relations))
    then err MergeErrorCode.accounting_mismatch
    else ok tt

-- `matches!(token.kind, 2 | 4 | 6)`
abbrev pub is_origin_token : ResultToken → Bool
is_origin_token t = eqb t.kind 2 || eqb t.kind 4 || eqb t.kind 6

-- `sort_unstable()` and `dedup()`
unfoldable pub canonical_tokens : List ResultToken → List ResultToken
unfolding sort_by dedup
canonical_tokens tokens = dedup (sort_by token_ord.cmp tokens)

-- The accounting at the end of the run.
unfoldable pub final_accounting :
    ActionCounts → List ResultToken → MergeAccounting → MergeAccounting
final_accounting c tokens a = record a {
  result_entities = c.target_entities + c.added_entities;
  result_observations = c.target_observations + c.added_observations;
  result_relations = c.target_relations + c.added_relations;
  retained_origins = u64_of_usize (count_if is_origin_token tokens);
}

abbrev pub prelude_of : SnapshotHeader → SnapshotHeader → MergePolicy → PlanPrelude
prelude_of target source policy = record {
  version = merge_plan_version;
  source_space = source.space_id;
  target_space = target.space_id;
  source_snapshot_hash = source.hash;
  target_snapshot_hash = target.hash;
  expected_target_version = target.space_version;
  policy_version = policy.version;
  identity_policy_generation = policy.identity_policy_generation;
}

module _ ⦃ext : Externals⦄ where
  -- The plan that the final state gives.
  unfoldable pub plan_of : PlanPrelude → PlanningState → MergeAccounting → MergePlan
  plan_of prelude state accounting =
      let tokens = canonical_tokens state.result_tokens in
      let action_stream_hash = finish state.action_hash in
      let predicted = hash_result_tokens tokens in
      record {
        prelude = prelude;
        action_stream_hash = action_stream_hash;
        action_counts = state.counts;
        accounting = accounting;
        predicted_result_hash = predicted;
        plan_hash = hash_plan prelude action_stream_hash state.counts accounting predicted;
      }

  unfoldable pub finish_plan :
      SnapshotHeader → SnapshotHeader → PlanPrelude → PlanningState → Result MergePlan
  finish_plan target_header source_header prelude state =
      let accounting =
        final_accounting state.counts (canonical_tokens state.result_tokens) state.accounting in
      Results.◌>>=◌ (validate_accounting state.counts accounting target_header source_header)
        λ _. ok (plan_of prelude state accounting)

  abbrev pub initial_state : MergeAccounting → PlanningState
  initial_state accounting = record {
    action_hash = new "openmemory/merge-actions/v1";
    result_tokens = [];
    counts = no_counts;
    accounting = accounting;
  }

  -- `verify_plan`
  unfoldable pub verify_plan : List MergeAction → MergePlan → Result (Unit {0})
  verify_plan actions plan =
      if not (eqb (u64_of_usize (length actions)) (total_actions plan.action_counts))
      then err MergeErrorCode.accounting_mismatch
      else let counts = foldl count_action no_counts actions in
        let action_hash = finish (each encode_action actions (new "openmemory/merge-actions/v1")) in
        let predicted = hash_result_tokens (canonical_tokens (concat_map result_tokens actions)) in
        if not (action_hash == plan.action_stream_hash)
          || not (predicted == plan.predicted_result_hash)
          || not (counts == plan.action_counts)
          || not (
              hash_plan plan.prelude action_hash counts plan.accounting predicted == plan.plan_hash)
        then err MergeErrorCode.accounting_mismatch
        else ok tt

  module _ {S : Type 0} (sink : ActionSink S) (target source : SnapshotSource) where
    -- The target's and the source's entities, under the dispositions.
    unfoldable pub plan_entities :
        List PlannedEntity
        → SnapshotVerifier
        → SnapshotVerifier
        → PlanningState
        → Plan S (TargetEntities × SourceEntities)
    plan_entities planned target_verifier source_verifier state = do
      te ←
          visit (visit_target_entity sink) target.entities
            (record { verifier = target_verifier; entities = []; ids = []; state = state })
      target_verifier' ← lift (end_entities te.verifier)
      let ctx : EntityContext = record {
        planned = planned;
        target_header = target.header;
        source_header = source.header;
        target_entities = te.entities;
        target_ids = te.ids;
      }
      se ← visit (visit_source_entity sink ctx) source.entities (record {
        verifier = source_verifier;
        results = [];
        qualified = [];
        seen = replicate (length planned) false;
        seen_count = 0;
        state = te.state;
      })
      source_verifier' ← lift (end_entities se.verifier)
      lift (fail_if (not (eqb se.seen_count (length planned))) MergeErrorCode.discovery_incomplete)
      pure (record te { verifier = target_verifier' }, record se { verifier = source_verifier' })

    -- The observations of both; the answer is the verifiers and the state.
    unfoldable pub plan_observations :
        TargetEntities
        → SourceEntities
        → Plan S (SnapshotVerifier × SnapshotVerifier × PlanningState)
    plan_observations te se = do
      to ← visit (visit_target_observation sink te.entities) target.observations (record {
        verifier = te.verifier;
        index = [];
        ids = [];
        qualified = [];
        state = se.state;
      })
      target_verifier ← lift (end_observations to.verifier)
      so ←
          visit (visit_source_observation sink se.results) source.observations
            (record to { verifier = se.verifier })
      source_verifier ← lift (end_observations so.verifier)
      pure (target_verifier, source_verifier, so.state)

    -- The relations of both, after which both snapshots are verified to the end.
    unfoldable pub plan_relations :
        MergePolicy
        → TargetEntities
        → SourceEntities
        → SnapshotVerifier
        → SnapshotVerifier
        → PlanningState
        → Plan S PlanningState
    plan_relations policy te se target_verifier source_verifier state = do
      tr ← visit (visit_target_relation sink te.entities) target.relations (record {
        verifier = target_verifier;
        index = [];
        ids = [];
        qualified = [];
        state = state;
      })
      lift (finish_verifier tr.verifier)
      sr ←
          visit (visit_source_relation sink policy se.results) source.relations
            (record tr { verifier = source_verifier })
      lift (finish_verifier sr.verifier)
      pure sr.state

    unfoldable pub plan_after_begin :
        PlanningReceipts → MergePolicy → PlanPrelude → Plan S MergePlan
    plan_after_begin receipts policy prelude = do
      prepared ← lift (prepare_dispositions receipts policy)
      target_verifier ← lift (new_verifier target.header)
      source_verifier ← lift (new_verifier source.header)
      entities ← plan_entities prepared.0 target_verifier source_verifier (initial_state prepared.1)
      observed ← plan_observations entities.0 entities.1
      state ← plan_relations policy entities.0 entities.1 observed.0 observed.1 observed.2
      lift (finish_plan target.header source.header prelude state)

    -- The `match` on the result: a plan is published by `finish`, and every failure aborts.
    unfoldable pub conclude : Result MergePlan → Plan S MergePlan
    conclude (ok plan) s = elim (sink.finish plan s).0 [
      | ok _ ↦ (ok plan, (sink.finish plan s).1)
      | err e ↦ (err e, sink.abort (sink.finish plan s).1)
    ]
    conclude (err e) s = (err e, sink.abort s)

    unfoldable pub plan_merge : PlanningReceipts → MergePolicy → Plan S MergePlan
    plan_merge receipts policy = do
      lift (validate_headers target.header source.header)
      let prelude = prelude_of target.header source.header policy
      sink.begin prelude
      λ s.
          conclude (plan_after_begin receipts policy prelude s).0
            (plan_after_begin receipts policy prelude s).1
