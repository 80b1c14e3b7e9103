-- ===== src/Merge/Planner/Relations/Endpoints.antt =====
-- The endpoints of a source relation in the result.
use openmemory.Prelude.{
  ◌≡◌, refl, ◌⊎◌, Bool, true, not, ◌&&◌, Bool-cases, Option-cases, inl, inr, none, some, Option,
  MergeErrorCode, [], ◌∷◌, ◌++◌, length, ok, eqb, leb, arith, fail_if, require,
}
use openmemory.Prelude.Order.{◌==◌, ≡→==, list_ord, nat_ord}
use openmemory.Prelude.Maps.{BTreeMap, get}
use openmemory.Text.{Text, Externals}
use openmemory.Merge.Model.{LogicalId, ResultObjectId, result_id_ord}
use openmemory.Merge.Model.Records.{RelationRecord}
use openmemory.Merge.Model.Encode.{derive}
use openmemory.Merge.Planner.{
  MergePolicy, allows_self_loop, max_actions, total_actions, MergeAction, add_relation,
  merge_relation_origin,
}
use openmemory.Merge.Planner.Sink.{MemoryActionSink, memory_sink, emit as sink_emit, is_begun}
use openmemory.Merge.Planner.Stream.{PlanningState, emit, continue}
use openmemory.Merge.Planner.Emission.{
  Ensures, Ensures-pure, Ensures-err, Ensures-lift, Ensures-bind,
}
use openmemory.Merge.Planner.Relations.{
  Relations, Placed, relation_key, place_relation, visit_source_relation,
}

module _ ⦃ext : Externals⦄ where
  emit-append :
      (a : MergeAction) (b : PlanningState) (s : MemoryActionSink)
      → Ensures (λ _ t. t ≡ record s { actions = s.actions ++ a ∷ [] }) (emit memory_sink a b s)
  unfolding emit sink_emit continue
  emit-append a b s = elim (Bool-cases (leb max_actions (total_actions b.counts))) [
    | inl full ↦ rw full Ensures-err
    | inr room ↦ rw room (elim (Bool-cases (is_begun s.state)) [
      | inl open_sink ↦ rw open_sink (elim (Bool-cases (eqb (length s.actions) s.max_actions)) [
        | inl no_room ↦ rw no_room Ensures-err
        | inr fits ↦ rw fits (Ensures-pure refl)
      ])
      | inr shut ↦ rw shut Ensures-err
    ])
  ]

  -- An action that carries the relation with these endpoints.
  abbrev pub Carries : MergeAction → RelationRecord → ResultObjectId → ResultObjectId → Type 0
  Carries action r subject object =
      ((id : Text) × (action ≡ add_relation r id subject object))
      ⊎ ((known : ResultObjectId) × (action ≡ merge_relation_origin r known subject object))

  place_relation-Carries :
      (r : RelationRecord) (subject object : ResultObjectId) (l : Relations) (x : Placed)
      → place_relation r subject object l ≡ ok x
      → Carries x.action r subject object
  unfolding place_relation
  place_relation-Carries r subject object l x e =
      elim (Option-cases (get (relation_key subject r.predicate object r.lifecycle) l.index)) [
        | inl absent ↦ inl (derive r.address.space r.address.logical_id, ground arith)
        | inr (known, found) ↦ inr (known, ground arith)
      ]

  -- Both endpoints have results, which differ unless the policy allows a self-loop, and the sink
  -- `t` is `s` with one more action, which carries the relation between these results.
  abbrev pub Linked :
      MergePolicy
      → BTreeMap LogicalId ResultObjectId
      → RelationRecord
      → MemoryActionSink
      → MemoryActionSink
      → Type 0
  Linked policy results r s t =
      (subject : ResultObjectId) × (object : ResultObjectId) × (action : MergeAction) × (get
          r.subject.logical_id results
        ≡ some subject)
      × (get r.object.logical_id results ≡ some object)
      × (subject ≡ object → allows_self_loop policy r.predicate ≡ true)
      × Carries action r subject object
      × (t ≡ record s { actions = s.actions ++ action ∷ [] })

  require-eq :
      {A : Type 0} (o : Option A) (e : MergeErrorCode) (a : A) → require o e ≡ ok a → o ≡ some a
  require-eq none e a h = absurd (ground arith)
  require-eq (some b) e a h = ground arith

  passed :
      (subject object : ResultObjectId) (allowed : Bool) (e : MergeErrorCode) (u : Unit {0})
      → fail_if (subject == object && not allowed) e ≡ ok u
      → subject ≡ object
      → allowed ≡ true
  passed subject object allowed e u h p = ground (arith, ≡→== subject object p)

  visit-Linked :
      (policy : MergePolicy) (results : BTreeMap LogicalId ResultObjectId) (r : RelationRecord)
      (l : Relations) (s : MemoryActionSink)
      → Ensures
          (λ _ t. Linked policy results r s t)
          (visit_source_relation memory_sink policy results r l s)
  unfolding visit_source_relation
  visit-Linked policy results r l s = Ensures-lift _ _ λ _ _. Ensures-lift _ _ λ subject a.
      Ensures-lift _ _ λ object b. Ensures-lift _ _ λ u c. Ensures-lift _ _ λ placed d.
        Ensures-bind (emit-append placed.action _ s) λ _ t p. Ensures-pure (
          subject,
          object,
          placed.action,
          require-eq _ _ subject a,
          require-eq _ _ object b,
          passed subject object _ _ u c,
          place_relation-Carries r subject object l placed d,
          p,
        )

  -- A source relation that its visitor accepts, on a memory sink, adds one action to the sink. It
  -- carries the relation between the results of its two endpoints, both of which are known, and
  -- these differ unless the policy allows a self-loop under the relation's predicate.
  pub visit_source_relation-Carries :
      (policy : MergePolicy) (results : BTreeMap LogicalId ResultObjectId) (r : RelationRecord)
      (l l' : Relations) (s : MemoryActionSink)
      → (visit_source_relation memory_sink policy results r l s).0 ≡ ok l'
      → Linked policy results r s (visit_source_relation memory_sink policy results r l s).1
  visit_source_relation-Carries policy results r l l' s e =
      (visit-Linked policy results r l s).holds l' e
