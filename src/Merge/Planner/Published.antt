-- ===== src/Merge/Planner/Published.antt =====
-- What a caller of `plan_merge` with a memory sink has when it succeeds.
use openmemory.Prelude.{◌≡◌, refl, subst, Bool-cases, inl, inr, some, Result, ok, err}
use openmemory.Prelude.Order.{◌==◌, option_ord}
use openmemory.Text.{Externals}
use openmemory.Merge.Planner.{MergePolicy, PlanningReceipts, PlanPrelude, prelude_ord, MergePlan}
use openmemory.Merge.Planner.Sink
use openmemory.Merge.Planner.Sink.{
  MemoryActionSink, memory_sink, MemorySinkState, idle, begun, finished, aborted,
}
use openmemory.Merge.Planner.Stream.{SnapshotSource}
use openmemory.Merge.Planner.Run.{plan_merge, conclude, plan_after_begin, prelude_of}
use openmemory.Merge.Planner.Emission.{
  Ensures, Ensures-lift, Ensures-bind, Ensures-pure, Ensures-err,
}
use openmemory.Merge.Planner.Emission.Phases.{Planned, plan_after_begin-Planned}

module _ ⦃ext : Externals⦄ (target source : SnapshotSource) where
  finish-ok :
      (plan : MergePlan) (s : MemoryActionSink)
      → Ensures (λ _ t. t ≡ record s { plan = some plan; state = finished }) (Sink.finish plan s)
  unfolding Sink.finish
  finish-ok plan s = elim (Bool-cases (Sink.is_begun s.state)) [
    | inl open_sink ↦ elim (Bool-cases (s.prelude == some plan.prelude)) [
      | inl same ↦ rw (open_sink, same) (Ensures-pure refl)
      | inr other ↦ rw (open_sink, other) Ensures-err
    ]
    | inr shut ↦ rw shut Ensures-err
  ]

  conclude-ok :
      (r : Result MergePlan) (s : MemoryActionSink)
      → Ensures
          (λ plan t. (r ≡ ok plan) × (t ≡ record s { plan = some plan; state = finished }))
          (conclude memory_sink target source r s)
  unfolding conclude
  conclude-ok (ok plan) s = go (Sink.finish plan s).0 (finish-ok plan s).holds
    where
      go :
          (r : Result (Unit {0}))
          → ((a : Unit {0})
              → r ≡ ok a
              → (Sink.finish plan s).1 ≡ record s { plan = some plan; state = finished })
          → Ensures
              (λ plan' t.
                (ok plan ≡ ok plan') × (t ≡ record s { plan = some plan'; state = finished }))
              (elim r [
                | ok _ ↦ (ok plan, (Sink.finish plan s).1)
                | err e ↦ (err e, Sink.abort (Sink.finish plan s).1)
              ])
      go (ok a) h = Ensures-pure (refl, h a refl)
      go (err e) h = Ensures-err
  conclude-ok (err e) s = Ensures-err

  -- A run that published its plan: what it planned after `begin`, and what `finish` stored.
  pub record Published (policy : MergePolicy) (s t : MemoryActionSink) (plan : MergePlan)
      : Type 0 where
    pub last : MemoryActionSink
    pub planned :
        Planned target source
          (prelude_of target.header source.header policy)
          plan
          (record s {
            prelude = some (prelude_of target.header source.header policy);
            state = begun;
          })
          last
    pub stored : t ≡ record last { plan = some plan; state = finished }

  begin-begun :
      (prelude : PlanPrelude) (s : MemoryActionSink)
      → Ensures
          (λ _ t. t ≡ record s { prelude = some prelude; state = begun })
          (Sink.begin prelude s)
  unfolding Sink.begin
  begin-begun prelude s = go s.state refl
    where
      go :
          (st : MemorySinkState)
          → s.state ≡ st
          → Ensures
              (λ _ t. t ≡ record s { prelude = some prelude; state = begun })
              (Sink.begin prelude s)
      go idle e = rw e (Ensures-pure refl)
      go begun e = rw e Ensures-err
      go finished e = rw e Ensures-err
      go aborted e = rw e Ensures-err

  pub plan_merge-Published :
      (receipts : PlanningReceipts) (policy : MergePolicy) (s : MemoryActionSink)
      → Ensures
          (λ plan t. Published policy s t plan)
          (plan_merge memory_sink target source receipts policy s)
  unfolding plan_merge
  plan_merge-Published receipts policy s = Ensures-lift _ _ λ _ _.
      Ensures-bind (begin-begun _ s) λ _ t p.
        let run =
          plan_after_begin-Planned target source receipts policy
            (prelude_of target.header source.header policy) t in
        record {
          holds = λ plan e.
              let c = (conclude-ok _ _).holds plan e in
              let after =
                plan_after_begin memory_sink target source receipts policy
                  (prelude_of target.header source.header policy) t in
              record {
                last = after.1;
                planned =
                    subst
                      (λ x.
                        Planned target source (prelude_of target.header source.header policy) plan x
                          after.1)
                      p (run.holds plan c.0);
                stored = c.1;
              };
        }
