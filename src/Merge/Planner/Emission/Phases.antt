-- ===== src/Merge/Planner/Emission/Phases.antt =====
-- The three phases of a run, and the run as a whole, consume the six streams in order.
use openmemory.Prelude.{◌≡◌, List, ◌++◌, map, ok}
use openmemory.Prelude.{arith}
use openmemory.Prelude.Results.{>>=-ok}
use openmemory.Text.{Externals}
use openmemory.Merge.Planner.{
  MergePolicy, PlanningReceipts, PlanPrelude, MergePlan, MergeAccounting,
}
use openmemory.Merge.Planner.Dispositions.{PlannedEntity}
use openmemory.Merge.Planner.Sink.{MemoryActionSink, memory_sink}
use openmemory.Merge.Planner.Verifier.{SnapshotVerifier}
use openmemory.Merge.Planner.Stream.{SnapshotSource, PlanningState}
use openmemory.Merge.Planner.Entities.{TargetEntities, SourceEntities}
use openmemory.Merge.Planner.Observations.{Observations}
use openmemory.Merge.Planner.Relations.{Relations}
use openmemory.Merge.Planner.Run.{
  plan_entities, plan_observations, plan_relations, plan_after_begin, finish_plan, plan_of,
  initial_state, validate_accounting, final_accounting, canonical_tokens,
}
use openmemory.Merge.Planner.Emission.{
  Ensures, Ensures-lift, Ensures-bind, Ensures-pure, Input, target_entity, source_entity,
  target_observation, source_observation, target_relation, source_relation, Emitted, Emitted-trans,
}
use openmemory.Merge.Planner.Emission.Steps.{
  visit-Emitted, visit_target_entity-Emitted, visit_source_entity-Emitted,
  visit_target_observation-Emitted, visit_source_observation-Emitted, visit_target_relation-Emitted,
  visit_source_relation-Emitted,
}

module _ (target source : SnapshotSource) where
  abbrev pub entity_inputs : List Input
  entity_inputs =
      map target_entity target.entities.records ++ map source_entity source.entities.records

  abbrev pub observation_inputs : List Input
  observation_inputs =
      map target_observation target.observations.records
      ++ map source_observation source.observations.records

  abbrev pub relation_inputs : List Input
  relation_inputs =
      map target_relation target.relations.records ++ map source_relation source.relations.records

  -- Every record of both snapshots, in the order in which a run visits them.
  abbrev pub all_inputs : List Input
  all_inputs = (entity_inputs ++ observation_inputs) ++ relation_inputs

  module _ ⦃ext : Externals⦄ where
    plan_entities-Emitted :
        (planned : List PlannedEntity) (tv sv : SnapshotVerifier) (state : PlanningState)
        (s : MemoryActionSink)
        → Ensures
            (λ r t. Emitted entity_inputs state r.1.state s t)
            (plan_entities memory_sink target source planned tv sv state s)
    unfolding plan_entities
    plan_entities-Emitted planned tv sv state s =
        Ensures-bind
          (visit-Emitted _ (λ (l : TargetEntities). l.state) target_entity
            visit_target_entity-Emitted target.entities _ s)
          λ te t p. Ensures-lift _ _ λ _ _.
            Ensures-bind
              (visit-Emitted _ (λ (l : SourceEntities). l.state) source_entity
                (visit_source_entity-Emitted _) source.entities _ t)
              λ se u q.
                Ensures-lift _ _ λ _ _. Ensures-lift _ _ λ _ _. Ensures-pure (Emitted-trans p q)

    plan_observations-Emitted :
        (te : TargetEntities) (se : SourceEntities) (s : MemoryActionSink)
        → Ensures
            (λ r t. Emitted observation_inputs se.state r.2 s t)
            (plan_observations memory_sink target source te se s)
    unfolding plan_observations
    plan_observations-Emitted te se s =
        Ensures-bind
          (visit-Emitted _ (λ (l : Observations). l.state) target_observation
            (visit_target_observation-Emitted te.entities) target.observations _ s)
          λ to t p. Ensures-lift _ _ λ _ _.
            Ensures-bind
              (visit-Emitted _ (λ (l : Observations). l.state) source_observation
                (visit_source_observation-Emitted se.results) source.observations _ t)
              λ so u q. Ensures-lift _ _ λ _ _. Ensures-pure (Emitted-trans p q)

    plan_relations-Emitted :
        (policy : MergePolicy) (te : TargetEntities) (se : SourceEntities)
        (tv sv : SnapshotVerifier) (state : PlanningState) (s : MemoryActionSink)
        → Ensures
            (λ after t. Emitted relation_inputs state after s t)
            (plan_relations memory_sink target source policy te se tv sv state s)
    unfolding plan_relations
    plan_relations-Emitted policy te se tv sv state s =
        Ensures-bind
          (visit-Emitted _ (λ (l : Relations). l.state) target_relation
            (visit_target_relation-Emitted te.entities) target.relations _ s)
          λ tr t p. Ensures-lift _ _ λ _ _.
            Ensures-bind
              (visit-Emitted _ (λ (l : Relations). l.state) source_relation
                (visit_source_relation-Emitted policy se.results) source.relations _ t)
              λ sr u q. Ensures-lift _ _ λ _ _. Ensures-pure (Emitted-trans p q)

    -- How a finished run came to its plan.
    pub record Planned (prelude : PlanPrelude) (plan : MergePlan) (s t : MemoryActionSink)
        : Type 0 where
      pub start : MergeAccounting
      pub state : PlanningState
      pub emitted : Emitted all_inputs (initial_state start) state s t
      pub validated :
          validate_accounting state.counts
            (final_accounting state.counts (canonical_tokens state.result_tokens) state.accounting)
            target.header
            source.header
          ≡ ok tt
      pub plan_eq :
          plan
          ≡ plan_of prelude state (
              final_accounting state.counts (canonical_tokens state.result_tokens) state.accounting)

    finish_plan-eq :
        (prelude : PlanPrelude) (state : PlanningState) (plan : MergePlan)
        → finish_plan target.header source.header prelude state ≡ ok plan
        → (validate_accounting state.counts
              (final_accounting state.counts
                (canonical_tokens state.result_tokens)
                state.accounting)
              target.header
              source.header
            ≡ ok tt)
          × (plan
              ≡ plan_of prelude state (
                  final_accounting state.counts
                    (canonical_tokens state.result_tokens)
                    state.accounting))
    unfolding finish_plan
    finish_plan-eq prelude state plan h =
        let (_, validated, e) = >>=-ok _ _ h in (validated, ground arith)

    pub plan_after_begin-Planned :
        (receipts : PlanningReceipts) (policy : MergePolicy) (prelude : PlanPrelude)
        (s : MemoryActionSink)
        → Ensures
            (λ plan t. Planned prelude plan s t)
            (plan_after_begin memory_sink target source receipts policy prelude s)
    unfolding plan_after_begin
    plan_after_begin-Planned receipts policy prelude s = Ensures-lift _ _ λ prepared _.
        Ensures-lift _ _ λ tv _. Ensures-lift _ _ λ sv _.
          Ensures-bind (plan_entities-Emitted prepared.0 tv sv (initial_state prepared.1) s)
            λ entities t p.
              Ensures-bind (plan_observations-Emitted entities.0 entities.1 t) λ observed u q.
                Ensures-bind
                  (plan_relations-Emitted policy entities.0 entities.1 observed.0 observed.1
                    observed.2 u)
                  λ state v r. record {
                    holds = λ plan e.
                        let (validated, plan_eq) = finish_plan-eq prelude state plan e in
                        record {
                          start = prepared.1;
                          state = state;
                          emitted = Emitted-trans (Emitted-trans p q) r;
                          validated = validated;
                          plan_eq = plan_eq;
                        };
                  }
