-- ===== src/Merge/Planner/Verified.antt =====
-- `verify_plan` on the actions and the plan that a successful run leaves in a memory sink.
use openmemory.Prelude.{
  ◌+◌, ◌<◌, ◌≡◌, refl, ap, some, List, [], ◌∷◌, map, foldl, length, ok, eqb_refl, arith,
}
use openmemory.Prelude.Order.{compare_refl, list_cmp_refl, list_ord, nat_ord}
use openmemory.Text.{Externals}
use openmemory.Merge.Canonical.{u64_of_usize, u64_of_usize-small}
use openmemory.Merge.Planner.{
  max_actions, MergePolicy, PlanningReceipts, MergeAction, ActionCounts, no_counts, counts_ord,
  total_actions, PlanPrelude, MergePlan, MergeAccounting, keep_target_entity,
  apply_entity_disposition, keep_target_observation, add_observation, merge_observation_origin,
  keep_target_relation, add_relation, merge_relation_origin, coalesce, add_distinct,
}
use openmemory.Merge.Planner.Tokens.{count_action}
use openmemory.Merge.Planner.Sink.{MemoryActionSink, memory_sink, finished}
use openmemory.Merge.Planner.Stream.{SnapshotSource, PlanningState}
use openmemory.Merge.Planner.Run.{plan_merge, verify_plan, plan_of, initial_state}
use openmemory.Merge.Planner.Emission.{Input, input_of, Emitted}
use openmemory.Merge.Planner.Emission.Phases.{all_inputs, Planned}
use openmemory.Merge.Planner.Published.{plan_merge-Published}

total_actions-count_action :
    (c : ActionCounts) (a : MergeAction) → total_actions (count_action c a) ≡ total_actions c + 1
unfolding total_actions count_action
total_actions-count_action c (keep_target_entity r) = omega arith
total_actions-count_action c (apply_entity_disposition r (coalesce s t h)) = omega arith
total_actions-count_action c (apply_entity_disposition r (add_distinct s t k h)) = omega arith
total_actions-count_action c (keep_target_observation o e) = omega arith
total_actions-count_action c (add_observation o q e) = omega arith
total_actions-count_action c (merge_observation_origin o t e) = omega arith
total_actions-count_action c (keep_target_relation r a b) = omega arith
total_actions-count_action c (add_relation r q a b) = omega arith
total_actions-count_action c (merge_relation_origin r t a b) = omega arith

total_actions-foldl :
    (c : ActionCounts) (xs : List MergeAction)
    → total_actions (foldl count_action c xs) ≡ total_actions c + length xs
total_actions-foldl c [] = omega arith
total_actions-foldl c (a ∷ xs) =
    omega (arith, total_actions-foldl (count_action c a) xs, total_actions-count_action c a)

total_actions-none : total_actions no_counts ≡ 0
unfolding total_actions
total_actions-none = refl

module _ ⦃ext : Externals⦄ (target source : SnapshotSource) where
  total_actions-Emitted :
      {is : List Input} {start : MergeAccounting} {state : PlanningState} {s t : MemoryActionSink}
      → (e : Emitted is (initial_state start) state s t)
      → total_actions state.counts ≡ length e.actions
  total_actions-Emitted e = omega (
    arith,
    total_actions-none,
    total_actions-foldl no_counts e.actions,
    ap total_actions e.counted,
  )

  Planned-verify_plan :
      (prelude : PlanPrelude) (plan : MergePlan) (s t : MemoryActionSink)
      → Planned target source prelude plan s t
      → s.actions ≡ []
      → verify_plan t.actions plan ≡ ok tt
  unfolding verify_plan plan_of
  Planned-verify_plan prelude plan s t p h =
      let at_most = p.emitted.room (omega (arith, total_actions-none)) in
      let total = total_actions-Emitted p.emitted in
      let fits : u64_of_usize (length p.emitted.actions) ≡ length p.emitted.actions =
        u64_of_usize-small _ (omega arith) in
      rw
        (
          p.emitted.collected, h, p.plan_eq, total, fits, p.emitted.hashed, p.emitted.tokens,
          p.emitted.counted,
        )
        (rw (eqb_refl (length p.emitted.actions)) (simp (list_cmp_refl, compare_refl)))

  module _ (receipts : PlanningReceipts) (policy : MergePolicy) (s : MemoryActionSink)
      (plan : MergePlan)
      (planned : (plan_merge memory_sink target source receipts policy s).0 ≡ ok plan) where
    -- The sink after the run.
    abbrev pub after : MemoryActionSink
    after = (plan_merge memory_sink target source receipts policy s).1

    -- A run on a memory sink that holds no action, if it succeeds with a plan, leaves that plan
    -- and a list of actions in the sink for which `verify_plan` answers ok; the sink is finished.
    pub plan_merge-verify_plan :
        s.actions ≡ []
        → (verify_plan after.actions plan ≡ ok tt)
          × (after.plan ≡ some plan)
          × (after.state ≡ finished)
    plan_merge-verify_plan h =
        let p = (plan_merge-Published target source receipts policy s).holds plan planned in
        rw p.stored (Planned-verify_plan _ plan _ _ p.planned h, refl, refl)

    -- A run on a memory sink that holds no action, if it succeeds, leaves one action for every
    -- record of the two snapshots, in the order in which the planner reads them: target before
    -- source, and entities before observations before relations.
    pub plan_merge-all_inputs :
        s.actions ≡ [] → map input_of after.actions ≡ all_inputs target source
    plan_merge-all_inputs h =
        let p = (plan_merge-Published target source receipts policy s).holds plan planned in
        rw (p.stored, p.planned.emitted.collected, h, p.planned.emitted.consumed)

    -- A run that succeeds on a memory sink without actions leaves fewer than `max_actions` of them.
    pub plan_merge-max_actions : s.actions ≡ [] → length after.actions < max_actions
    plan_merge-max_actions h =
        let p = (plan_merge-Published target source receipts policy s).holds plan planned in
        let q = p.planned.emitted in
        let n = total_actions-Emitted q in
        rw (p.stored, q.collected, h) (omega (arith, q.room (omega (arith, total_actions-none)), n))
