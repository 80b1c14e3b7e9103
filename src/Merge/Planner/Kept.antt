-- ===== src/Merge/Planner/Kept.antt =====
-- What a run keeps of a sink whose `emit` keeps it, whether the run succeeds or fails.
use openmemory.Prelude.{List, [], ◌∷◌, Result, ok, err, Bool-cases, inl, inr, leb}
use openmemory.Prelude.Maps.{BTreeMap}
use openmemory.Text.{Externals}
use openmemory.Merge.Model.{LogicalId, RevisionId, ResultObjectId}
use openmemory.Merge.Model.Records.{EntityRecord, ObservationRecord, RelationRecord}
use openmemory.Merge.Planner.{
  MergeAction, MergePlan, MergePolicy, PlanningReceipts, PlanPrelude, ActionSink, max_actions,
  total_actions,
}
use openmemory.Merge.Planner.Verifier.{SnapshotVerifier}
use openmemory.Merge.Planner.Dispositions.{PlannedEntity}
use openmemory.Merge.Planner.Stream.{
  Plan, PlanningState, SnapshotSource, Stream, continue, emit, visit, visit_records,
}
use openmemory.Merge.Planner.Entities.{
  EntityContext, TargetEntities, SourceEntities, visit_target_entity, visit_source_entity,
}
use openmemory.Merge.Planner.Observations.{
  Observations, visit_target_observation, visit_source_observation,
}
use openmemory.Merge.Planner.Relations.{Relations, visit_target_relation, visit_source_relation}
use openmemory.Merge.Planner.Run.{
  plan_entities, plan_observations, plan_relations, plan_after_begin, conclude, plan_merge,
}

-- `I` holds of the state that a computation leaves, whatever its answer.
pub record Leaves {S A : Type 0} (I : S → Type 0) (r : Result A × S) : Type 0 where
  pub left : I r.1

module _ {S : Type 0} (I : S → Type 0) where
  Leaves-pure : {A : Type 0} {r : Result A} {s : S} → I s → Leaves I (r, s)
  Leaves-pure i = record { left = i }

  Leaves-lift :
      {A B : Type 0} (r : Result A) (f : A → Plan S B) {s : S}
      → I s
      → ((a : A) → Leaves I (f a s))
      → Leaves I (continue r f s)
  unfolding continue
  Leaves-lift (ok a) f i k = k a
  Leaves-lift (err e) f i k = record { left = i }

  Leaves-bind :
      {A B : Type 0} {m : Result A × S} {f : A → Plan S B}
      → Leaves I m
      → ((a : A) (t : S) → I t → Leaves I (f a t))
      → Leaves I (continue m.0 f m.1)
  Leaves-bind {m} {f} h k = Leaves-lift m.0 f h.left λ a. k a m.1 h.left

  conclude-Leaves :
      (sink : ActionSink S)
      → ((plan : MergePlan) (s : S) → I s → I (sink.finish plan s).1)
      → ((s : S) → I s → I (sink.abort s))
      → ⦃ext : Externals⦄ (target source : SnapshotSource) (r : Result MergePlan) (s : S) → I s
      → Leaves I (conclude sink target source r s)
  unfolding conclude
  conclude-Leaves sink k_finish k_abort target source (err e) s i = Leaves-pure (k_abort s i)
  conclude-Leaves sink k_finish k_abort target source (ok plan) s i = go (sink.finish plan s).0
    where
      go :
          (x : Result (Unit {0}))
          → Leaves I (elim x as (λ _. Result MergePlan × S) [
            | ok _ ↦ (ok plan, (sink.finish plan s).1)
            | err e ↦ (err e, sink.abort (sink.finish plan s).1)
          ])
      go (ok _) = Leaves-pure (k_finish plan s i)
      go (err _) = Leaves-pure (k_abort _ (k_finish plan s i))

  module _ (sink : ActionSink S) (kept : (a : MergeAction) (s : S) → I s → I (sink.emit a s).1)
      ⦃ext : Externals⦄ where
    emit-Leaves : (a : MergeAction) (b : PlanningState) (s : S) → I s → Leaves I (emit sink a b s)
    unfolding emit
    emit-Leaves a b s i = elim (Bool-cases (leb max_actions (total_actions b.counts))) [
      | inl full ↦ rw full (Leaves-pure i)
      | inr room ↦ rw room (Leaves-bind (record { left = kept a s i }) λ _ t j. Leaves-pure j)
    ]

    module _ {A L : Type 0} (body : A → L → Plan S L)
        (step : (x : A) (l : L) (s : S) → I s → Leaves I (body x l s)) where
      visit_records-Leaves :
          (xs : List A) (l : L) (s : S) → I s → Leaves I (visit_records body xs l s)
      unfolding visit_records
      visit_records-Leaves [] l s i = Leaves-pure i
      visit_records-Leaves (x ∷ xs) l s i =
          Leaves-bind (step x l s i) λ l' t j. visit_records-Leaves xs l' t j

      visit-Leaves : (stream : Stream A) (l : L) (s : S) → I s → Leaves I (visit body stream l s)
      unfolding visit
      visit-Leaves stream l s i =
          Leaves-bind (visit_records-Leaves stream.records l s i)
            λ l' t j. Leaves-lift _ _ j λ _. Leaves-pure j

    visit_target_entity-Leaves :
        (r : EntityRecord) (l : TargetEntities) (s : S)
        → I s
        → Leaves I (visit_target_entity sink r l s)
    unfolding visit_target_entity
    visit_target_entity-Leaves r l s i =
        Leaves-lift _ _ i
          λ _. Leaves-lift _ _ i λ _. Leaves-bind (emit-Leaves _ _ s i) λ _ t j. Leaves-pure j

    visit_source_entity-Leaves :
        (ctx : EntityContext) (r : EntityRecord) (l : SourceEntities) (s : S)
        → I s
        → Leaves I (visit_source_entity sink ctx r l s)
    unfolding visit_source_entity
    visit_source_entity-Leaves ctx r l s i = Leaves-lift _ _ i λ _. Leaves-lift _ _ i λ _.
        Leaves-lift _ _ i λ _. Leaves-lift _ _ i λ _.
          Leaves-lift _ _ i
            λ _. Leaves-lift _ _ i λ _. Leaves-bind (emit-Leaves _ _ s i) λ _ t j. Leaves-pure j

    visit_target_observation-Leaves :
        (te : BTreeMap LogicalId RevisionId) (o : ObservationRecord) (l : Observations) (s : S)
        → I s
        → Leaves I (visit_target_observation sink te o l s)
    unfolding visit_target_observation
    visit_target_observation-Leaves te o l s i = Leaves-lift _ _ i λ _.
        Leaves-lift _ _ i
          λ _. Leaves-lift _ _ i λ _. Leaves-bind (emit-Leaves _ _ s i) λ _ t j. Leaves-pure j

    visit_source_observation-Leaves :
        (results : BTreeMap LogicalId ResultObjectId) (o : ObservationRecord) (l : Observations)
        (s : S)
        → I s
        → Leaves I (visit_source_observation sink results o l s)
    unfolding visit_source_observation
    visit_source_observation-Leaves results o l s i = Leaves-lift _ _ i λ _.
        Leaves-lift _ _ i
          λ _. Leaves-lift _ _ i λ _. Leaves-bind (emit-Leaves _ _ s i) λ _ t j. Leaves-pure j

    visit_target_relation-Leaves :
        (te : BTreeMap LogicalId RevisionId) (r : RelationRecord) (l : Relations) (s : S)
        → I s
        → Leaves I (visit_target_relation sink te r l s)
    unfolding visit_target_relation
    visit_target_relation-Leaves te r l s i = Leaves-lift _ _ i λ _.
        Leaves-lift _ _ i
          λ _. Leaves-lift _ _ i λ _. Leaves-bind (emit-Leaves _ _ s i) λ _ t j. Leaves-pure j

    visit_source_relation-Leaves :
        (policy : MergePolicy) (results : BTreeMap LogicalId ResultObjectId) (r : RelationRecord)
        (l : Relations) (s : S)
        → I s
        → Leaves I (visit_source_relation sink policy results r l s)
    unfolding visit_source_relation
    visit_source_relation-Leaves policy results r l s i = Leaves-lift _ _ i λ _.
        Leaves-lift _ _ i λ _. Leaves-lift _ _ i λ _.
          Leaves-lift _ _ i
            λ _. Leaves-lift _ _ i λ _. Leaves-bind (emit-Leaves _ _ s i) λ _ t j. Leaves-pure j

    module _ (target source : SnapshotSource) where
      plan_entities-Leaves :
          (planned : List PlannedEntity) (tv sv : SnapshotVerifier) (b : PlanningState) (s : S)
          → I s
          → Leaves I (plan_entities sink target source planned tv sv b s)
      unfolding plan_entities
      plan_entities-Leaves planned tv sv b s i =
          Leaves-bind (visit-Leaves _ visit_target_entity-Leaves target.entities _ s i) λ te t j.
            Leaves-lift _ _ j λ _.
              Leaves-bind (visit-Leaves _ (visit_source_entity-Leaves _) source.entities _ t j)
                λ se u k. Leaves-lift _ _ k λ _. Leaves-lift _ _ k λ _. Leaves-pure k

      plan_observations-Leaves :
          (te : TargetEntities) (se : SourceEntities) (s : S)
          → I s
          → Leaves I (plan_observations sink target source te se s)
      unfolding plan_observations
      plan_observations-Leaves te se s i =
          Leaves-bind
            (visit-Leaves _ (visit_target_observation-Leaves te.entities) target.observations _ s i)
            λ to t j. Leaves-lift _ _ j λ _.
              Leaves-bind
                (visit-Leaves _ (visit_source_observation-Leaves se.results) source.observations _ t
                  j)
                λ so u k. Leaves-lift _ _ k λ _. Leaves-pure k

      plan_relations-Leaves :
          (policy : MergePolicy) (te : TargetEntities) (se : SourceEntities)
          (tv sv : SnapshotVerifier) (b : PlanningState) (s : S)
          → I s
          → Leaves I (plan_relations sink target source policy te se tv sv b s)
      unfolding plan_relations
      plan_relations-Leaves policy te se tv sv b s i =
          Leaves-bind
            (visit-Leaves _ (visit_target_relation-Leaves te.entities) target.relations _ s i)
            λ tr t j. Leaves-lift _ _ j λ _.
              Leaves-bind
                (visit-Leaves _ (visit_source_relation-Leaves policy se.results) source.relations _
                  t j)
                λ sr u k. Leaves-lift _ _ k λ _. Leaves-pure k

      pub plan_after_begin-Leaves :
          (receipts : PlanningReceipts) (policy : MergePolicy) (prelude : PlanPrelude) (s : S)
          → I s
          → Leaves I (plan_after_begin sink target source receipts policy prelude s)
      unfolding plan_after_begin
      plan_after_begin-Leaves receipts policy prelude s i = Leaves-lift _ _ i λ prepared.
          Leaves-lift _ _ i λ tv. Leaves-lift _ _ i λ sv.
            Leaves-bind (plan_entities-Leaves _ tv sv _ s i) λ entities t j.
              Leaves-bind (plan_observations-Leaves _ _ t j) λ observed u k.
                Leaves-bind (plan_relations-Leaves policy _ _ _ _ _ u k)
                  λ state v m. record { left = m }

  -- A whole run keeps what the four operations of its sink keep.
  pub plan_merge-Leaves :
      (sink : ActionSink S)
      → ((p : PlanPrelude) (s : S) → I s → I (sink.begin p s).1)
      → ((a : MergeAction) (s : S) → I s → I (sink.emit a s).1)
      → ((plan : MergePlan) (s : S) → I s → I (sink.finish plan s).1)
      → ((s : S) → I s → I (sink.abort s))
      → ⦃ext : Externals⦄ (target source : SnapshotSource) (receipts : PlanningReceipts)
        (policy : MergePolicy) (s : S)
      → I s
      → Leaves I (plan_merge sink target source receipts policy s)
  unfolding plan_merge
  plan_merge-Leaves sink k_begin k_emit k_finish k_abort target source receipts policy s i =
      Leaves-lift _ _ i λ _.
        Leaves-bind (record { left = k_begin _ s i })
          λ _ t j.
            conclude-Leaves sink k_finish k_abort target source _ _
              (plan_after_begin-Leaves sink k_emit target source receipts policy _ t j).left
