-- ===== src/Merge/Examples/Runs.antt =====
-- The theorems on runs, snapshots and receipts, at the two example snapshots.
use openmemory.Prelude.{
  ◌≡◌, ◌⊎◌, ◌≤◌, ◌<◌, ◌^◌, refl, Bool, true, false, ◌&&◌, List, [], map, length, take, ltb, some,
  none, ok, MergeErrorCode, All, arith,
}
use openmemory.Prelude.Order.{◌==◌}
use openmemory.Text.{literal}
use openmemory.Merge.Discovery.{IdentityCandidate, max_candidate_cap}
use openmemory.Merge.Discovery.Search.{all_candidates}
use openmemory.Merge.Receipt.{
  maintainer, same, can_review, is_same, is_contradiction, matches_candidate, matches_discovery,
  new_keep_distinct,
}
use openmemory.Merge.Evidence.{revision_ref_ord}
use openmemory.Merge.Planner.{max_actions}
use openmemory.Merge.Planner.Sink.{finished, memory_sink}
use openmemory.Merge.Planner.Run.{verify_plan}
use openmemory.Merge.Planner.Emission.{input_of}
use openmemory.Merge.Planner.Emission.Phases.{all_inputs}
use openmemory.Merge.Planner.Verified.{
  plan_merge-verify_plan, plan_merge-all_inputs, plan_merge-max_actions,
}
use openmemory.Merge.Planner.Counted.{tally_of, announced, held, plan_merge-tally_of}
use openmemory.Merge.Planner.Failed.{IsCleared, plan_merge-failed, plan_merge-IsCleared}
use openmemory.Merge.Planner.Bounded.{IsBounded, plan_merge-IsBounded}
use openmemory.Merge.Planner.Justified.{Justified, prepare_dispositions-Justified}
use openmemory.Merge.Planner.Justified.Distinct.{
  IsDistinct, targets_of, prepare_dispositions-IsDistinct,
}
use openmemory.Merge.Planner.Checked.{plan_merge-IsCanonical}
use openmemory.Merge.Snapshot.{source_of}
use openmemory.Merge.Snapshot.Accepted.{IsCanonical}
use openmemory.Merge.Receipt.Sound.{
  reviewed_sound, SameDiscovery, new_keep_distinct-matches_discovery, discover_bounded,
}
use openmemory.Merge.Examples.{
  example_externals, target_snapshot, source_snapshot, policy, receipts, no_receipts, new_sink, run,
  refused_run, example_plan, prepared, entity, index, discovery, packet, receipt, computed,
}

plan_merge-verify_plan_example :
    (verify_plan run.1.actions example_plan ≡ ok tt)
    × (run.1.plan ≡ some example_plan)
    × (run.1.state ≡ finished)
plan_merge-verify_plan_example =
    plan_merge-verify_plan (source_of target_snapshot) (source_of source_snapshot) receipts policy
      new_sink example_plan computed.0 refl

plan_merge-all_inputs_example :
    map input_of run.1.actions ≡ all_inputs (source_of target_snapshot) (source_of source_snapshot)
plan_merge-all_inputs_example =
    plan_merge-all_inputs (source_of target_snapshot) (source_of source_snapshot) receipts policy
      new_sink example_plan computed.0 refl

plan_merge-max_actions_example : length run.1.actions < max_actions
plan_merge-max_actions_example =
    plan_merge-max_actions (source_of target_snapshot) (source_of source_snapshot) receipts policy
      new_sink example_plan computed.0 refl

plan_merge-tally_of_example :
    (tally_of example_plan.action_counts ≡ announced target_snapshot.header source_snapshot.header)
    × (announced target_snapshot.header source_snapshot.header
        ≡ held (source_of target_snapshot) (source_of source_snapshot))
plan_merge-tally_of_example =
    plan_merge-tally_of (source_of target_snapshot) (source_of source_snapshot) receipts policy
      new_sink example_plan computed.0

plan_merge-failed_example : (refused_run.1 ≡ new_sink) ⊎ IsCleared refused_run.1
plan_merge-failed_example =
    plan_merge-failed (source_of target_snapshot) (source_of source_snapshot) no_receipts policy
      new_sink MergeErrorCode.discovery_incomplete computed.1

plan_merge-IsCleared_example : IsCleared refused_run.1
plan_merge-IsCleared_example =
    plan_merge-IsCleared (source_of target_snapshot) (source_of source_snapshot) no_receipts policy
      new_sink MergeErrorCode.discovery_incomplete refl computed.6 computed.1

plan_merge-IsBounded_example : IsBounded run.1
plan_merge-IsBounded_example =
    plan_merge-IsBounded (source_of target_snapshot) (source_of source_snapshot) receipts policy
      new_sink (omega arith, omega arith)

prepare_dispositions-Justified_example : All (Justified receipts policy) prepared.0
prepare_dispositions-Justified_example =
    prepare_dispositions-Justified receipts policy prepared.0 prepared.1 computed.2

plan_merge-IsCanonical_example :
    IsCanonical (source_of target_snapshot) × IsCanonical (source_of source_snapshot)
unfolding openmemory.Merge.Snapshot.new_snapshot openmemory.Merge.Snapshot.validate_count
    openmemory.Merge.Snapshot.validate_unique_addresses openmemory.Merge.Planner.Verifier.not_after
    openmemory.Merge.Snapshot.has_absent_entity openmemory.Prelude.Maps.insert
    openmemory.Merge.Snapshot.compute_snapshot_hash openmemory.Prelude.Sorting.sort_by
plan_merge-IsCanonical_example =
    plan_merge-IsCanonical memory_sink (source_of target_snapshot) (source_of source_snapshot)
      receipts policy new_sink example_plan computed.0 (omega arith) (omega arith) (omega arith)
      (omega arith) (omega arith) (omega arith)

prepare_dispositions-IsDistinct_example : IsDistinct (targets_of prepared.0)
prepare_dispositions-IsDistinct_example =
    prepare_dispositions-IsDistinct receipts policy prepared.0 prepared.1 computed.2

discover_bounded_example :
    (length discovery.candidates ≤ 8)
    × (8 ≤ max_candidate_cap)
    × (discovery.candidates ≡ take 8 (all_candidates index (entity 2 (literal "a")) 22))
    × (discovery.truncated ≡ ltb 8 (length (all_candidates index (entity 2 (literal "a")) 22)))
    × (discovery.truncated ≡ false
        → discovery.candidates ≡ all_candidates index (entity 2 (literal "a")) 22)
discover_bounded_example = discover_bounded index (entity 2 (literal "a")) 22 8 discovery computed.4

reviewed_sound_example :
    (can_review maintainer ≡ true)
    × (is_same receipt.decision ≡ true → is_contradiction packet.resolution ≡ false)
    × (receipt.decision ≡ same)
    × (receipt.packet_hash ≡ packet.hash)
    × (receipt.policy_generation ≡ packet.policy_generation)
    × ((c : IdentityCandidate)
        → matches_candidate receipt c ≡ (packet.left == c.target && packet.right == c.source))
reviewed_sound_example = reviewed_sound packet same 99 maintainer receipt computed.5

new_keep_distinct-matches_discovery_example :
    (matches_discovery (new_keep_distinct discovery) discovery ≡ true
      → SameDiscovery discovery discovery)
    × (SameDiscovery discovery discovery
        → matches_discovery (new_keep_distinct discovery) discovery ≡ true)
new_keep_distinct-matches_discovery_example =
    new_keep_distinct-matches_discovery discovery discovery
