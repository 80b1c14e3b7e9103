-- ===== src/Merge/Planner/Emission/Steps.antt =====
-- Each visitor emits exactly one action, for the record that it is given.
use openmemory.Prelude.{
  ◌+◌, ◌≡◌, refl, subst, Bool-cases, inl, inr, length, List, [], ◌∷◌, map, append-nil, ok, eqb, leb,
  arith,
}
use openmemory.Prelude.Order.{list_ord, nat_ord}
use openmemory.Prelude.Maps.{BTreeMap}
use openmemory.Text.{Externals}
use openmemory.Merge.Canonical.{each}
use openmemory.Merge.Model.{LogicalId, RevisionId, ResultObjectId, result_id_ord}
use openmemory.Merge.Model.Records.{EntityRecord, ObservationRecord, RelationRecord}
use openmemory.Merge.Planner.{
  MergePolicy, max_actions, total_actions, ActionCounts, MergeAction, keep_target_entity,
  apply_entity_disposition, keep_target_observation, keep_target_relation,
}
use openmemory.Merge.Planner.Tokens.{count_action}
use openmemory.Merge.Planner.Dispositions.{PlannedDisposition, coalesce, add}
use openmemory.Merge.Planner.Sink.{MemoryActionSink, memory_sink, emit as sink_emit, is_begun}
use openmemory.Merge.Planner.Stream.{
  Plan, continue, PlanningState, Stream, emit, visit, visit_records,
}
use openmemory.Merge.Planner.Emission.{
  Ensures, Ensures-lift, Ensures-pure, Ensures-err, Ensures-bind, Input, input_of, target_entity,
  source_entity, target_observation, source_observation, target_relation, source_relation, Emitted,
  Emitted-refl, Emitted-trans,
}
use openmemory.Merge.Planner.Entities.{
  TargetEntities, SourceEntities, EntityContext, Disposed, dispose_record, visit_target_entity,
  visit_source_entity,
}
use openmemory.Merge.Planner.Observations
use openmemory.Merge.Planner.Observations.{
  Observations, place_observation, visit_target_observation, visit_source_observation,
}
use openmemory.Merge.Planner.Relations
use openmemory.Merge.Planner.Relations.{
  Relations, place_relation, visit_target_relation, visit_source_relation,
}

module _ ⦃ext : Externals⦄ where
  abbrev counting : ActionCounts → PlanningState → PlanningState
  counting counts state = record state { counts = counts }

  -- An action that was counted first and then emitted.
  pub emit-Emitted :
      (a : MergeAction) (b : PlanningState) (counts : ActionCounts) (s : MemoryActionSink)
      → counts ≡ count_action b.counts a
      → Ensures
          (λ after t. Emitted (input_of a ∷ []) b after s t)
          (emit memory_sink a (counting counts b) s)
  unfolding emit sink_emit each continue
  emit-Emitted a b counts s h = elim (Bool-cases (leb max_actions (total_actions counts))) [
    | inl full ↦ rw full Ensures-err
    | inr room ↦ rw room (elim (Bool-cases (is_begun s.state)) [
      | inl open_sink ↦ rw open_sink (elim (Bool-cases (eqb (length s.actions) s.max_actions)) [
        | inl no_room ↦ rw no_room Ensures-err
        | inr fits ↦ rw fits (
            Ensures-pure (record {
              actions = a ∷ [];
              consumed = refl;
              collected = refl;
              hashed = refl;
              tokens = rw append-nil;
              counted = h;
              accounted = refl;
              room = λ _. ground arith;
            }))
      ])
      | inr shut ↦ rw shut Ensures-err
    ])
  ]

  module _ {A L : Type 0} (body : A → L → Plan MemoryActionSink L) (state_of : L → PlanningState)
      (input : A → Input)
      (step : (x : A) (l : L) (s : MemoryActionSink)
        → Ensures
            (λ l' t. Emitted (input x ∷ []) (state_of l) (state_of l') s t)
            (body x l s)) where
    visit_records-Emitted :
        (xs : List A) (l : L) (s : MemoryActionSink)
        → Ensures
            (λ l' t. Emitted (map input xs) (state_of l) (state_of l') s t)
            (visit_records body xs l s)
    unfolding visit_records
    visit_records-Emitted [] l s = Ensures-pure (Emitted-refl (state_of l) s)
    visit_records-Emitted (x ∷ xs) l s = Ensures-bind (step x l s) λ l' t p. record {
      holds = λ l'' e. Emitted-trans p ((visit_records-Emitted xs l' t).holds l'' e);
    }

    -- A visit emits one action for each record, in the order of the stream.
    pub visit-Emitted :
        (stream : Stream A) (l : L) (s : MemoryActionSink)
        → Ensures
            (λ l' t. Emitted (map input stream.records) (state_of l) (state_of l') s t)
            (visit body stream l s)
    unfolding visit
    visit-Emitted stream l s =
        Ensures-bind (visit_records-Emitted stream.records l s)
          λ l' t p. Ensures-lift _ _ λ _ _. Ensures-pure p

  pub visit_target_entity-Emitted :
      (r : EntityRecord) (l : TargetEntities) (s : MemoryActionSink)
      → Ensures
          (λ l' t. Emitted (target_entity r ∷ []) l.state l'.state s t)
          (visit_target_entity memory_sink r l s)
  unfolding visit_target_entity count_action
  visit_target_entity-Emitted r l s = Ensures-lift _ _ λ verifier _. Ensures-lift _ _ λ _ _.
      Ensures-bind (emit-Emitted (keep_target_entity r) l.state _ s refl)
        λ state t p. Ensures-pure p

  -- The counts that `dispose_record` and the two placements return are one step of `count_action`.
  dispose_record-counts :
      (ctx : EntityContext) (r : EntityRecord) (d : PlannedDisposition) (l : SourceEntities)
      (x : Disposed)
      → dispose_record ctx r d l ≡ ok x
      → record x.counts { source_entities = x.counts.source_entities + 1 }
        ≡ count_action l.state.counts (apply_entity_disposition r x.public)
  unfolding dispose_record count_action
  dispose_record-counts ctx r (coalesce target receipt) l x h = ground arith
  dispose_record-counts ctx r (add reason receipt) l x h = ground arith

  pub visit_source_entity-Emitted :
      (ctx : EntityContext) (r : EntityRecord) (l : SourceEntities) (s : MemoryActionSink)
      → Ensures
          (λ l' t. Emitted (source_entity r ∷ []) l.state l'.state s t)
          (visit_source_entity memory_sink ctx r l s)
  unfolding visit_source_entity
  visit_source_entity-Emitted ctx r l s = Ensures-lift _ _ λ verifier _. Ensures-lift _ _ λ index _.
      Ensures-lift _ _ λ expected _. Ensures-lift _ _ λ _ _. Ensures-lift _ _ λ _ _.
        Ensures-lift _ _ λ disposed e.
          Ensures-bind
            (emit-Emitted (apply_entity_disposition r disposed.public) l.state _ s
              (dispose_record-counts ctx r expected.disposition l disposed e))
            λ state t p. Ensures-pure p

  pub visit_target_observation-Emitted :
      (te : BTreeMap LogicalId RevisionId) (o : ObservationRecord) (l : Observations)
      (s : MemoryActionSink)
      → Ensures
          (λ l' t. Emitted (target_observation o ∷ []) l.state l'.state s t)
          (visit_target_observation memory_sink te o l s)
  unfolding visit_target_observation count_action
  visit_target_observation-Emitted te o l s = Ensures-lift _ _ λ verifier _. Ensures-lift _ _ λ _ _.
      Ensures-lift _ _ λ _ _.
        Ensures-bind (emit-Emitted (keep_target_observation o _) l.state _ s refl)
          λ state t p. Ensures-pure p

  place_observation-counts :
      (o : ObservationRecord) (e : ResultObjectId) (l : Observations) (x : Observations.Placed)
      → place_observation o e l ≡ ok x
      → (record x.counts { source_observations = x.counts.source_observations + 1 }
          ≡ count_action l.state.counts x.action)
        × (input_of x.action ≡ source_observation o)
  unfolding place_observation count_action
  place_observation-counts o e l x h = ground arith

  pub visit_source_observation-Emitted :
      (results : BTreeMap LogicalId ResultObjectId) (o : ObservationRecord) (l : Observations)
      (s : MemoryActionSink)
      → Ensures
          (λ l' t. Emitted (source_observation o ∷ []) l.state l'.state s t)
          (visit_source_observation memory_sink results o l s)
  unfolding visit_source_observation
  visit_source_observation-Emitted results o l s = Ensures-lift _ _ λ verifier _.
      Ensures-lift _ _ λ result_entity _. Ensures-lift _ _ λ placed e.
        let (counts, input) = place_observation-counts o result_entity l placed e in
        Ensures-bind (emit-Emitted placed.action l.state _ s counts)
          λ state t p. Ensures-pure (subst (λ i. Emitted (i ∷ []) l.state state s t) input p)

  pub visit_target_relation-Emitted :
      (te : BTreeMap LogicalId RevisionId) (r : RelationRecord) (l : Relations)
      (s : MemoryActionSink)
      → Ensures
          (λ l' t. Emitted (target_relation r ∷ []) l.state l'.state s t)
          (visit_target_relation memory_sink te r l s)
  unfolding visit_target_relation count_action
  visit_target_relation-Emitted te r l s = Ensures-lift _ _ λ verifier _. Ensures-lift _ _ λ _ _.
      Ensures-lift _ _ λ _ _.
        Ensures-bind (emit-Emitted (keep_target_relation r _ _) l.state _ s refl)
          λ state t p. Ensures-pure p

  place_relation-counts :
      (r : RelationRecord) (a b : ResultObjectId) (l : Relations) (x : Relations.Placed)
      → place_relation r a b l ≡ ok x
      → (record x.counts { source_relations = x.counts.source_relations + 1 }
          ≡ count_action l.state.counts x.action)
        × (input_of x.action ≡ source_relation r)
  unfolding place_relation count_action
  place_relation-counts r a b l x h = ground arith

  pub visit_source_relation-Emitted :
      (policy : MergePolicy) (results : BTreeMap LogicalId ResultObjectId) (r : RelationRecord)
      (l : Relations) (s : MemoryActionSink)
      → Ensures
          (λ l' t. Emitted (source_relation r ∷ []) l.state l'.state s t)
          (visit_source_relation memory_sink policy results r l s)
  unfolding visit_source_relation
  visit_source_relation-Emitted policy results r l s = Ensures-lift _ _ λ verifier _.
      Ensures-lift _ _ λ subject _. Ensures-lift _ _ λ object _. Ensures-lift _ _ λ _ _.
        Ensures-lift _ _ λ placed e.
          let (counts, input) = place_relation-counts r subject object l placed e in
          Ensures-bind (emit-Emitted placed.action l.state _ s counts)
            λ state t p. Ensures-pure (subst (λ i. Emitted (i ∷ []) l.state state s t) input p)
