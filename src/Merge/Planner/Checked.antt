-- ===== src/Merge/Planner/Checked.antt =====
-- A run that succeeds has verified both snapshots to the end.
use openmemory.Prelude.{◌≡◌, refl, ◌<◌, ◌^◌, List, [], ◌∷◌, length, Result, ok, err}
use openmemory.Prelude.Maps.{BTreeMap}
use openmemory.Text.{Externals}
use openmemory.Merge.Model.{LogicalId, RevisionId, ResultObjectId}
use openmemory.Merge.Model.Records.{EntityRecord, ObservationRecord, RelationRecord}
use openmemory.Merge.Planner.{MergePlan, MergePolicy, PlanningReceipts, PlanPrelude, ActionSink}
use openmemory.Merge.Planner.Dispositions.{PlannedEntity}
use openmemory.Merge.Planner.Verifier.{
  SnapshotVerifier, new_verifier, verify_entity, verify_observation, verify_relation, end_entities,
  end_observations, finish_verifier,
}
use openmemory.Merge.Planner.Stream.{
  Plan, PlanningState, SnapshotSource, Stream, visit, visit_records,
}
use openmemory.Merge.Planner.Entities.{
  EntityContext, TargetEntities, SourceEntities, visit_target_entity, visit_source_entity,
}
use openmemory.Merge.Planner.Observations.{
  Observations, visit_target_observation, visit_source_observation,
}
use openmemory.Merge.Planner.Relations.{Relations, visit_target_relation, visit_source_relation}
use openmemory.Merge.Planner.Run.{
  plan_entities, plan_observations, plan_relations, plan_after_begin, conclude, plan_merge,
}
use openmemory.Merge.Planner.Emission.{
  Ensures, Ensures-pure, Ensures-err, Ensures-lift, Ensures-bind,
}
use openmemory.Merge.Snapshot.Accepted.{
  check_all, verify_snapshot, IsCanonical, verify_snapshot-IsCanonical,
}

module _ {S : Type 0} where
  -- Of some steps only their success matters.
  Ensures-any : {A : Type 0} {m : Result A × S} → Ensures (λ _ _. Unit {0}) m
  Ensures-any = record { holds = λ _ _. tt }

  module _ {A L : Type 0} (body : A → L → Plan S L) (verifier_of : L → SnapshotVerifier)
      (check : A → SnapshotVerifier → Result SnapshotVerifier)
      (step : (x : A) (l : L) (s : S)
        → Ensures (λ l' t. check x (verifier_of l) ≡ ok (verifier_of l')) (body x l s)) where
    visit_records-check_all :
        (xs : List A) (l : L) (s : S)
        → Ensures
            (λ l' t. check_all check xs (verifier_of l) ≡ ok (verifier_of l'))
            (visit_records body xs l s)
    unfolding visit_records check_all
    visit_records-check_all [] l s = Ensures-pure refl
    visit_records-check_all (x ∷ xs) l s =
        Ensures-bind (step x l s)
          λ l' t p. record { holds = λ l'' e. rw p ((visit_records-check_all xs l' t).holds l'' e) }

    visit-check_all :
        (stream : Stream A) (l : L) (s : S)
        → Ensures
            (λ l' t. check_all check stream.records (verifier_of l) ≡ ok (verifier_of l'))
            (visit body stream l s)
    unfolding visit
    visit-check_all stream l s =
        Ensures-bind (visit_records-check_all stream.records l s)
          λ l' t p. Ensures-lift _ _ λ _ _. Ensures-pure p

-- The checks of one stream, from one stage of the verifier to the next.
abbrev Stage :
    {A : Type 0}
    → (A → SnapshotVerifier → Result SnapshotVerifier)
    → (SnapshotVerifier → Result SnapshotVerifier)
    → Stream A
    → SnapshotVerifier
    → SnapshotVerifier
    → Type 0
Stage check finish stream v w =
    (u : SnapshotVerifier) × (check_all check stream.records v ≡ ok u) × (finish u ≡ ok w)

module _ ⦃ext : Externals⦄ {S : Type 0} (sink : ActionSink S) where
  visit_target_entity-verify_entity :
      (r : EntityRecord) (l : TargetEntities) (s : S)
      → Ensures
          (λ l' t. verify_entity r l.verifier ≡ ok l'.verifier)
          (visit_target_entity sink r l s)
  unfolding visit_target_entity
  visit_target_entity-verify_entity r l s =
      Ensures-lift _ _
        λ v e. Ensures-lift _ _ λ _ _. Ensures-bind Ensures-any λ _ t _. Ensures-pure e

  visit_source_entity-verify_entity :
      (ctx : EntityContext) (r : EntityRecord) (l : SourceEntities) (s : S)
      → Ensures
          (λ l' t. verify_entity r l.verifier ≡ ok l'.verifier)
          (visit_source_entity sink ctx r l s)
  unfolding visit_source_entity
  visit_source_entity-verify_entity ctx r l s = Ensures-lift _ _ λ v e. Ensures-lift _ _ λ _ _.
      Ensures-lift _ _ λ _ _. Ensures-lift _ _ λ _ _.
        Ensures-lift _ _
          λ _ _. Ensures-lift _ _ λ _ _. Ensures-bind Ensures-any λ _ t _. Ensures-pure e

  visit_target_observation-verify_observation :
      (te : BTreeMap LogicalId RevisionId) (r : ObservationRecord) (l : Observations) (s : S)
      → Ensures
          (λ l' t. verify_observation r l.verifier ≡ ok l'.verifier)
          (visit_target_observation sink te r l s)
  unfolding visit_target_observation
  visit_target_observation-verify_observation te r l s = Ensures-lift _ _ λ v e.
      Ensures-lift _ _
        λ _ _. Ensures-lift _ _ λ _ _. Ensures-bind Ensures-any λ _ t _. Ensures-pure e

  visit_source_observation-verify_observation :
      (results : BTreeMap LogicalId ResultObjectId) (r : ObservationRecord) (l : Observations)
      (s : S)
      → Ensures
          (λ l' t. verify_observation r l.verifier ≡ ok l'.verifier)
          (visit_source_observation sink results r l s)
  unfolding visit_source_observation
  visit_source_observation-verify_observation results r l s = Ensures-lift _ _ λ v e.
      Ensures-lift _ _
        λ _ _. Ensures-lift _ _ λ _ _. Ensures-bind Ensures-any λ _ t _. Ensures-pure e

  visit_target_relation-verify_relation :
      (te : BTreeMap LogicalId RevisionId) (r : RelationRecord) (l : Relations) (s : S)
      → Ensures
          (λ l' t. verify_relation r l.verifier ≡ ok l'.verifier)
          (visit_target_relation sink te r l s)
  unfolding visit_target_relation
  visit_target_relation-verify_relation te r l s = Ensures-lift _ _ λ v e.
      Ensures-lift _ _
        λ _ _. Ensures-lift _ _ λ _ _. Ensures-bind Ensures-any λ _ t _. Ensures-pure e

  visit_source_relation-verify_relation :
      (policy : MergePolicy) (results : BTreeMap LogicalId ResultObjectId) (r : RelationRecord)
      (l : Relations) (s : S)
      → Ensures
          (λ l' t. verify_relation r l.verifier ≡ ok l'.verifier)
          (visit_source_relation sink policy results r l s)
  unfolding visit_source_relation
  visit_source_relation-verify_relation policy results r l s = Ensures-lift _ _ λ v e.
      Ensures-lift _ _ λ _ _. Ensures-lift _ _ λ _ _.
        Ensures-lift _ _
          λ _ _. Ensures-lift _ _ λ _ _. Ensures-bind Ensures-any λ _ t _. Ensures-pure e

  module _ (target source : SnapshotSource) where
    plan_entities-Stage :
        (planned : List PlannedEntity) (tv sv : SnapshotVerifier) (b : PlanningState) (s : S)
        → Ensures
            (λ r t.
              Stage verify_entity end_entities target.entities tv r.0.verifier
              × Stage verify_entity end_entities source.entities sv r.1.verifier)
            (plan_entities sink target source planned tv sv b s)
    unfolding plan_entities
    plan_entities-Stage planned tv sv b s =
        Ensures-bind
          (visit-check_all _ (λ (l : TargetEntities). l.verifier) verify_entity
            visit_target_entity-verify_entity target.entities _ s)
          λ te t p. Ensures-lift _ _ λ tv' p'.
            Ensures-bind
              (visit-check_all _ (λ (l : SourceEntities). l.verifier) verify_entity
                (visit_source_entity-verify_entity _) source.entities _ t)
              λ se u q. Ensures-lift _ _ λ sv' q'.
                Ensures-lift _ _ λ _ _. Ensures-pure ((te.verifier, p, p'), (se.verifier, q, q'))

    plan_observations-Stage :
        (te : TargetEntities) (se : SourceEntities) (s : S)
        → Ensures
            (λ r t.
              Stage verify_observation end_observations target.observations te.verifier r.0
              × Stage verify_observation end_observations source.observations se.verifier r.1)
            (plan_observations sink target source te se s)
    unfolding plan_observations
    plan_observations-Stage te se s =
        Ensures-bind
          (visit-check_all _ (λ (l : Observations). l.verifier) verify_observation
            (visit_target_observation-verify_observation te.entities) target.observations _ s)
          λ to t p. Ensures-lift _ _ λ tv' p'.
            Ensures-bind
              (visit-check_all _ (λ (l : Observations). l.verifier) verify_observation
                (visit_source_observation-verify_observation se.results) source.observations _ t)
              λ so u q.
                Ensures-lift _ _ λ sv' q'. Ensures-pure ((to.verifier, p, p'), (so.verifier, q, q'))

    plan_relations-Stage :
        (policy : MergePolicy) (te : TargetEntities) (se : SourceEntities)
        (tv sv : SnapshotVerifier) (b : PlanningState) (s : S)
        → Ensures
            (λ r t.
              ((w : SnapshotVerifier) × Stage verify_relation finish_verifier target.relations tv w)
              × ((w : SnapshotVerifier) × Stage verify_relation finish_verifier source.relations sv
                    w))
            (plan_relations sink target source policy te se tv sv b s)
    unfolding plan_relations
    plan_relations-Stage policy te se tv sv b s =
        Ensures-bind
          (visit-check_all _ (λ (l : Relations). l.verifier) verify_relation
            (visit_target_relation-verify_relation te.entities) target.relations _ s)
          λ tr t p. Ensures-lift _ _ λ tv' p'.
            Ensures-bind
              (visit-check_all _ (λ (l : Relations). l.verifier) verify_relation
                (visit_source_relation-verify_relation policy se.results) source.relations _ t)
              λ sr u q.
                Ensures-lift _ _
                  λ sv' q'. Ensures-pure ((tv', (tr.verifier, p, p')), (sv', (sr.verifier, q, q')))

    abbrev Verified : SnapshotSource → Type 0
    Verified s = (v : SnapshotVerifier) × (verify_snapshot s ≡ ok v)

    -- The stages of one snapshot are one call of `verify_snapshot`.
    stages-Verified :
        (s : SnapshotSource) (v0 v1 v2 v3 : SnapshotVerifier)
        → new_verifier s.header ≡ ok v0
        → Stage verify_entity end_entities s.entities v0 v1
        → Stage verify_observation end_observations s.observations v1 v2
        → Stage verify_relation finish_verifier s.relations v2 v3
        → Verified s
    unfolding verify_snapshot
    stages-Verified s v0 v1 v2 v3 h (u, a, b) (w, c, d) (x, e, f) =
        (v3, rw (h, a, b, c, d, e, f) refl)

    plan_after_begin-Verified :
        (receipts : PlanningReceipts) (policy : MergePolicy) (prelude : PlanPrelude) (s : S)
        → Ensures
            (λ _ t. Verified target × Verified source)
            (plan_after_begin sink target source receipts policy prelude s)
    unfolding plan_after_begin
    plan_after_begin-Verified receipts policy prelude s = Ensures-lift _ _ λ prepared _.
        Ensures-lift _ _ λ tv p. Ensures-lift _ _ λ sv q.
          Ensures-bind (plan_entities-Stage prepared.0 tv sv _ s) λ entities t e.
            Ensures-bind (plan_observations-Stage entities.0 entities.1 t) λ observed u o.
              Ensures-bind
                (plan_relations-Stage policy entities.0 entities.1 observed.0 observed.1 _ u)
                λ state v r. record {
                  holds = λ _ _. (
                    stages-Verified target tv _ _ _ p e.0 o.0 r.0.1,
                    stages-Verified source sv _ _ _ q e.1 o.1 r.1.1,
                  );
                }

    conclude-planned :
        (r : Result MergePlan) (s : S)
        → Ensures (λ plan t. r ≡ ok plan) (conclude sink target source r s)
    unfolding conclude
    conclude-planned (err e) s = Ensures-err
    conclude-planned (ok plan) s = go (sink.finish plan s).0
      where
        go :
            (x : Result (Unit {0}))
            → Ensures
                (λ plan' t. ok plan ≡ ok plan')
                (elim x as (λ _. Result MergePlan × S) [
                  | ok _ ↦ (ok plan, (sink.finish plan s).1)
                  | err e ↦ (err e, sink.abort (sink.finish plan s).1)
                ])
        go (ok _) = Ensures-pure refl
        go (err _) = Ensures-err

    plan_merge-Verified :
        (receipts : PlanningReceipts) (policy : MergePolicy) (s : S)
        → Ensures
            (λ _ t. Verified target × Verified source)
            (plan_merge sink target source receipts policy s)
    unfolding plan_merge
    plan_merge-Verified receipts policy s = Ensures-lift _ _ λ _ _.
        Ensures-bind Ensures-any λ _ t _. record {
          holds = λ plan e.
              (plan_after_begin-Verified receipts policy _ t).holds plan
                ((conclude-planned _ _).holds plan e);
        }

    -- Where a run succeeds, on any sink, both snapshots are canonical if their streams are shorter
    -- than 2^64: records of the snapshot's space in strictly ascending order of address, as many
    -- as the header says, with the hash that `compute_snapshot_hash` takes of them.
    pub plan_merge-IsCanonical :
        (receipts : PlanningReceipts) (policy : MergePolicy) (s : S) (plan : MergePlan)
        → (plan_merge sink target source receipts policy s).0 ≡ ok plan
        → length target.entities.records < 2 ^ 64
        → length target.observations.records < 2 ^ 64
        → length target.relations.records < 2 ^ 64
        → length source.entities.records < 2 ^ 64
        → length source.observations.records < 2 ^ 64
        → length source.relations.records < 2 ^ 64
        → IsCanonical target × IsCanonical source
    plan_merge-IsCanonical receipts policy s plan planned a b c d e f =
        let ((v, p), (w, q)) = (plan_merge-Verified receipts policy s).holds plan planned in
        (verify_snapshot-IsCanonical target v p a b c, verify_snapshot-IsCanonical source w q d e f)
