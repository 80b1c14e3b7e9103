-- ===== src/Merge/Planner/Counted.antt =====
-- The counts of a plan are the numbers of the records that its run read.
use openmemory.Prelude.{
  ℕ, ◌+◌, ◌≡◌, refl, sym, ap, ◌∙◌, List, [], ◌∷◌, map, foldl, foldl-append, length, ok, arith,
}
use openmemory.Text.{Externals}
use openmemory.Merge.Model.Records.{SnapshotHeader, EntityRecord, ObservationRecord, RelationRecord}
use openmemory.Merge.Planner.{
  MergePolicy, PlanningReceipts, MergeAction, ActionCounts, MergeAccounting, no_counts, MergePlan,
  keep_target_entity, apply_entity_disposition, keep_target_observation, add_observation,
  merge_observation_origin, keep_target_relation, add_relation, merge_relation_origin, coalesce,
  add_distinct,
}
use openmemory.Merge.Planner.Tokens.{count_action}
use openmemory.Merge.Planner.Sink.{MemoryActionSink, memory_sink}
use openmemory.Merge.Planner.Stream.{SnapshotSource}
use openmemory.Merge.Planner.Run.{plan_merge, validate_accounting, plan_of}
use openmemory.Merge.Planner.Emission.{
  Input, input_of, target_entity, source_entity, target_observation, source_observation,
  target_relation, source_relation,
}
use openmemory.Merge.Planner.Emission.Phases.{all_inputs}
use openmemory.Merge.Planner.Published.{plan_merge-Published}

-- How many records of each stream.
pub record Tally : Type 0 where
  pub target_entities : ℕ
  pub source_entities : ℕ
  pub target_observations : ℕ
  pub source_observations : ℕ
  pub target_relations : ℕ
  pub source_relations : ℕ

abbrev add_input : Tally → Input → Tally
add_input n (target_entity _) = record n { target_entities = n.target_entities + 1 }
add_input n (source_entity _) = record n { source_entities = n.source_entities + 1 }
add_input n (target_observation _) = record n { target_observations = n.target_observations + 1 }
add_input n (source_observation _) = record n { source_observations = n.source_observations + 1 }
add_input n (target_relation _) = record n { target_relations = n.target_relations + 1 }
add_input n (source_relation _) = record n { source_relations = n.source_relations + 1 }

-- What the counts of the actions say about the streams.
abbrev pub tally_of : ActionCounts → Tally
tally_of c = record {
  target_entities = c.target_entities;
  source_entities = c.source_entities;
  target_observations = c.target_observations;
  source_observations = c.source_observations;
  target_relations = c.target_relations;
  source_relations = c.source_relations;
}

-- What the two headers announce.
abbrev pub announced : SnapshotHeader → SnapshotHeader → Tally
announced target source = record {
  target_entities = target.entity_count;
  source_entities = source.entity_count;
  target_observations = target.observation_count;
  source_observations = source.observation_count;
  target_relations = target.relation_count;
  source_relations = source.relation_count;
}

-- What the streams of the two snapshots hold.
abbrev pub held : SnapshotSource → SnapshotSource → Tally
held target source = record {
  target_entities = length target.entities.records;
  source_entities = length source.entities.records;
  target_observations = length target.observations.records;
  source_observations = length source.observations.records;
  target_relations = length target.relations.records;
  source_relations = length source.relations.records;
}

tally_of-count_action :
    (c : ActionCounts) (a : MergeAction)
    → tally_of (count_action c a) ≡ add_input (tally_of c) (input_of a)
unfolding count_action
tally_of-count_action c (keep_target_entity r) = refl
tally_of-count_action c (apply_entity_disposition r (coalesce s t h)) = refl
tally_of-count_action c (apply_entity_disposition r (add_distinct s t k h)) = refl
tally_of-count_action c (keep_target_observation o e) = refl
tally_of-count_action c (add_observation o q e) = refl
tally_of-count_action c (merge_observation_origin o t e) = refl
tally_of-count_action c (keep_target_relation r a b) = refl
tally_of-count_action c (add_relation r q a b) = refl
tally_of-count_action c (merge_relation_origin r t a b) = refl

tally_of-foldl :
    (c : ActionCounts) (xs : List MergeAction)
    → tally_of (foldl count_action c xs) ≡ foldl add_input (tally_of c) (map input_of xs)
tally_of-foldl c [] = refl
tally_of-foldl c (x ∷ xs) =
    rw (tally_of-foldl (count_action c x) xs, tally_of-count_action c x) refl

-- A stream of one kind moves its own number by its length.
foldl-target_entity :
    (n : Tally) (xs : List EntityRecord)
    → foldl add_input n (map target_entity xs)
      ≡ record n { target_entities = n.target_entities + length xs }
foldl-target_entity n [] = ground arith
foldl-target_entity n (x ∷ xs) =
    ground (arith, foldl-target_entity (add_input n (target_entity x)) xs)

foldl-source_entity :
    (n : Tally) (xs : List EntityRecord)
    → foldl add_input n (map source_entity xs)
      ≡ record n { source_entities = n.source_entities + length xs }
foldl-source_entity n [] = ground arith
foldl-source_entity n (x ∷ xs) =
    ground (arith, foldl-source_entity (add_input n (source_entity x)) xs)

foldl-target_observation :
    (n : Tally) (xs : List ObservationRecord)
    → foldl add_input n (map target_observation xs)
      ≡ record n { target_observations = n.target_observations + length xs }
foldl-target_observation n [] = ground arith
foldl-target_observation n (x ∷ xs) =
    ground (arith, foldl-target_observation (add_input n (target_observation x)) xs)

foldl-source_observation :
    (n : Tally) (xs : List ObservationRecord)
    → foldl add_input n (map source_observation xs)
      ≡ record n { source_observations = n.source_observations + length xs }
foldl-source_observation n [] = ground arith
foldl-source_observation n (x ∷ xs) =
    ground (arith, foldl-source_observation (add_input n (source_observation x)) xs)

foldl-target_relation :
    (n : Tally) (xs : List RelationRecord)
    → foldl add_input n (map target_relation xs)
      ≡ record n { target_relations = n.target_relations + length xs }
foldl-target_relation n [] = ground arith
foldl-target_relation n (x ∷ xs) =
    ground (arith, foldl-target_relation (add_input n (target_relation x)) xs)

foldl-source_relation :
    (n : Tally) (xs : List RelationRecord)
    → foldl add_input n (map source_relation xs)
      ≡ record n { source_relations = n.source_relations + length xs }
foldl-source_relation n [] = ground arith
foldl-source_relation n (x ∷ xs) =
    ground (arith, foldl-source_relation (add_input n (source_relation x)) xs)

validated-announced :
    (c : ActionCounts) (a : MergeAccounting) (target source : SnapshotHeader)
    → validate_accounting c a target source ≡ ok tt
    → tally_of c ≡ announced target source
unfolding validate_accounting
validated-announced c a target source h = ground arith

foldl-all_inputs :
    (target source : SnapshotSource)
    → foldl add_input (tally_of no_counts) (all_inputs target source) ≡ held target source
foldl-all_inputs target source =
    rw
      (
        foldl-append, foldl-append, foldl-append, foldl-append, foldl-append, foldl-target_entity,
        foldl-source_entity, foldl-target_observation, foldl-source_observation,
        foldl-target_relation, foldl-source_relation,
      )
      (ground arith)

module _ ⦃ext : Externals⦄ (target source : SnapshotSource) where
  -- Where a run on a memory sink succeeds, the six numbers of its plan are the six counts that the
  -- headers announce, and those are the numbers of the records in the six streams.
  pub plan_merge-tally_of :
      (receipts : PlanningReceipts) (policy : MergePolicy) (s : MemoryActionSink) (plan : MergePlan)
      → (plan_merge memory_sink target source receipts policy s).0 ≡ ok plan
      → (tally_of plan.action_counts ≡ announced target.header source.header)
        × (announced target.header source.header ≡ held target source)
  unfolding plan_of
  plan_merge-tally_of receipts policy s plan planned =
      let p = ((plan_merge-Published target source receipts policy s).holds plan planned).planned in
      let q = p.emitted in
      let headers = validated-announced _ _ _ _ p.validated in
      let streams : tally_of p.state.counts ≡ held target source =
        ap tally_of q.counted
        ∙ tally_of-foldl no_counts q.actions
        ∙ ap (foldl add_input (tally_of no_counts)) q.consumed
        ∙ foldl-all_inputs target source in
      (rw p.plan_eq headers, sym headers ∙ streams)
