-- ===== src/Merge/Planner/Bounded.antt =====
-- The bound of the memory sink, over its own operations and over a whole run.
use openmemory.Prelude.{
  ℕ, ◌≡◌, refl, ◌≤◌, [], ◌∷◌, length, length-append, some, ok, arith, Bool-cases, inl, inr, eqb,
}
use openmemory.Prelude.Order.{◌==◌, option_ord}
use openmemory.Text.{Externals}
use openmemory.Merge.Planner.{
  MergeAction, MergePlan, MergePolicy, PlanningReceipts, PlanPrelude, prelude_ord, max_actions,
}
use openmemory.Merge.Planner.Sink
use openmemory.Merge.Planner.Sink.{
  MemoryActionSink, MemorySinkState, idle, begun, finished, aborted, memory_sink,
}
use openmemory.Merge.Planner.Stream.{SnapshotSource}
use openmemory.Merge.Planner.Run.{plan_merge}
use openmemory.Merge.Planner.Kept.{plan_merge-Leaves}

-- A sink as `new` makes it keeps to its own bound, and that bound to the limit of the crate.
abbrev pub IsBounded : MemoryActionSink → Type 0
IsBounded s = (length s.actions ≤ s.max_actions) × (s.max_actions ≤ max_actions)

pub new-IsBounded : (n : ℕ) (s : MemoryActionSink) → Sink.new n ≡ ok s → IsBounded s
unfolding Sink.new
new-IsBounded n s h = (ground arith, ground arith)

begin-IsBounded :
    (p : PlanPrelude) (s : MemoryActionSink) → IsBounded s → IsBounded (Sink.begin p s).1
unfolding Sink.begin
begin-IsBounded p s i = go s.state refl
  where
    go : (st : MemorySinkState) → s.state ≡ st → IsBounded (Sink.begin p s).1
    go idle q = rw q i
    go begun q = rw q i
    go finished q = rw q i
    go aborted q = rw q i

emit-IsBounded :
    (a : MergeAction) (s : MemoryActionSink) → IsBounded s → IsBounded (Sink.emit a s).1
unfolding Sink.emit
emit-IsBounded a s i = elim (Bool-cases (Sink.is_begun s.state)) [
  | inl open_sink ↦ rw open_sink (elim (Bool-cases (eqb (length s.actions) s.max_actions)) [
    | inl full ↦ rw full i
    | inr room ↦ rw room (ground (arith, length-append s.actions (a ∷ [])), i.1)
  ])
  | inr shut ↦ rw shut i
]

finish-IsBounded :
    (plan : MergePlan) (s : MemoryActionSink) → IsBounded s → IsBounded (Sink.finish plan s).1
unfolding Sink.finish
finish-IsBounded plan s i = elim (Bool-cases (Sink.is_begun s.state)) [
  | inl open_sink ↦ rw open_sink (elim (Bool-cases (s.prelude == some plan.prelude)) [
    | inl same ↦ rw same i
    | inr other ↦ rw other i
  ])
  | inr shut ↦ rw shut i
]

abort-IsBounded : (s : MemoryActionSink) → IsBounded s → IsBounded (Sink.abort s)
unfolding Sink.abort
abort-IsBounded s i = go s.state refl
  where
    go : (st : MemorySinkState) → s.state ≡ st → IsBounded (Sink.abort s)
    go finished q = rw q i
    go idle q = rw q (omega arith, i.1)
    go begun q = rw q (omega arith, i.1)
    go aborted q = rw q (omega arith, i.1)

-- A run that starts on a memory sink within its bounds leaves it within them, whatever its result:
-- the sink holds at most as many actions as it was made for, and that is at most `max_actions`.
pub plan_merge-IsBounded :
    ⦃ext : Externals⦄ (target source : SnapshotSource) (receipts : PlanningReceipts)
    (policy : MergePolicy) (s : MemoryActionSink)
    → IsBounded s
    → IsBounded (plan_merge memory_sink target source receipts policy s).1
plan_merge-IsBounded target source receipts policy s i =
    (plan_merge-Leaves IsBounded memory_sink begin-IsBounded emit-IsBounded finish-IsBounded
      abort-IsBounded target source receipts policy s i).left
