-- ===== src/Merge/Planner/Failed.antt =====
-- What a run that fails leaves behind.
use openmemory.Prelude.{
  ◌≡◌, sym, ◌∙◌, refl, ◌⊎◌, inl, inr, [], none, Result, ok, err, MergeErrorCode, arith,
}
use openmemory.Prelude.Order.{option_ord}
use openmemory.Text.{Externals}
use openmemory.Merge.Planner.{
  MergeAction, MergePlan, MergePolicy, PlanningReceipts, PlanPrelude, prelude_ord,
}
use openmemory.Merge.Planner.Sink
use openmemory.Merge.Planner.Sink.{
  MemoryActionSink, memory_sink, MemorySinkState, idle, begun, finished, aborted,
}
use openmemory.Merge.Planner.Stream.{Plan, SnapshotSource, continue}
use openmemory.Merge.Planner.Run.{plan_merge, conclude, validate_headers, prelude_of}
use openmemory.Merge.Planner.Kept.{plan_after_begin-Leaves}

abbrev IsOpen : MemoryActionSink → Type 0
IsOpen s = s.state ≡ begun

-- The sink holds nothing of the run.
abbrev pub IsCleared : MemoryActionSink → Type 0
IsCleared s = (s.state ≡ aborted) × (s.actions ≡ []) × (s.plan ≡ none)

emit-IsOpen : (a : MergeAction) (s : MemoryActionSink) → IsOpen s → IsOpen (Sink.emit a s).1
unfolding Sink.emit
emit-IsOpen a s h = ground arith

abort-IsCleared : (s : MemoryActionSink) → IsOpen s → IsCleared (Sink.abort s)
unfolding Sink.abort
abort-IsCleared s h = rw h (refl, refl, refl)

-- A refused `finish` leaves the sink alone.
finish-refused :
    (plan : MergePlan) (s : MemoryActionSink) (e : MergeErrorCode)
    → (Sink.finish plan s).0 ≡ err e
    → (Sink.finish plan s).1 ≡ s
unfolding Sink.finish
finish-refused plan s e h = ground arith

conclude-failed :
    ⦃ext : Externals⦄ (target source : SnapshotSource) (r : Result MergePlan) (s : MemoryActionSink)
    (e : MergeErrorCode)
    → IsOpen s
    → (conclude memory_sink target source r s).0 ≡ err e
    → IsCleared (conclude memory_sink target source r s).1
unfolding conclude
conclude-failed target source (err x) s e o h = abort-IsCleared s o
conclude-failed target source (ok plan) s e o h =
    go (Sink.finish plan s).0 (finish-refused plan s) h
  where
    go :
        (x : Result (Unit {0}))
        → ((e' : MergeErrorCode) → x ≡ err e' → (Sink.finish plan s).1 ≡ s)
        → (elim x as (λ _. Result MergePlan × MemoryActionSink) [
          | ok _ ↦ (ok plan, (Sink.finish plan s).1)
          | err e' ↦ (err e', Sink.abort (Sink.finish plan s).1)
        ]).0
          ≡ err e
        → IsCleared
            (elim x as (λ _. Result MergePlan × MemoryActionSink) [
              | ok _ ↦ (ok plan, (Sink.finish plan s).1)
              | err e' ↦ (err e', Sink.abort (Sink.finish plan s).1)
            ]).1
    go (ok a) k q = ground arith
    go (err e') k q = rw (k e' refl) (abort-IsCleared s o)

-- A computation that fails leaves a state of `P`.
record Refuses {S A : Type 0} (P : S → Type 0) (r : Result A × S) : Type 0 where
  at_error : (e : MergeErrorCode) → r.0 ≡ err e → P r.1

Refuses-lift :
    {S A B : Type 0} {P : S → Type 0} (r : Result A) (f : A → Plan S B) {s : S}
    → ((e : MergeErrorCode) → r ≡ err e → P s)
    → ((a : A) → r ≡ ok a → Refuses P (f a s))
    → Refuses P (continue r f s)
unfolding continue
Refuses-lift (ok a) f h k = k a refl
Refuses-lift (err e) f h k = record { at_error = λ e' q. h e refl }

begin-refused :
    (prelude : PlanPrelude) (s : MemoryActionSink) (e : MergeErrorCode)
    → (Sink.begin prelude s).0 ≡ err e
    → (Sink.begin prelude s).1 ≡ s
unfolding Sink.begin
begin-refused prelude s e h = go s.state refl
  where
    go : (st : MemorySinkState) → s.state ≡ st → (Sink.begin prelude s).1 ≡ s
    go idle q = absurd (ground arith)
    go begun q = rw q refl
    go finished q = rw q refl
    go aborted q = rw q refl

begin-IsOpen :
    (prelude : PlanPrelude) (s : MemoryActionSink) (a : Unit {0})
    → (Sink.begin prelude s).0 ≡ ok a
    → IsOpen (Sink.begin prelude s).1
unfolding Sink.begin
begin-IsOpen prelude s a h = go s.state refl
  where
    go : (st : MemorySinkState) → s.state ≡ st → IsOpen (Sink.begin prelude s).1
    go idle q = rw q refl
    go begun q = absurd (ground arith)
    go finished q = absurd (ground arith)
    go aborted q = absurd (ground arith)

ok-ne-err : {u : Unit {0}} {e : MergeErrorCode} → ok u ≡ err e → ⊥
ok-ne-err q = cc

begin-accepted :
    (prelude : PlanPrelude) (s : MemoryActionSink)
    → s.state ≡ idle
    → (e : MergeErrorCode) → (Sink.begin prelude s).0 ≡ err e
    → ⊥
unfolding Sink.begin
begin-accepted prelude s fresh e h = ok-ne-err (rw fresh at h)

module _ ⦃ext : Externals⦄ (target source : SnapshotSource) where
  plan_merge-Refuses :
      (receipts : PlanningReceipts) (policy : MergePolicy) (s : MemoryActionSink)
      → Refuses
          (λ t. (t ≡ s) ⊎ IsCleared t)
          (plan_merge memory_sink target source receipts policy s)
  unfolding plan_merge
  plan_merge-Refuses receipts policy s =
      Refuses-lift _ _ (λ _ _. inl refl)
        λ _ _.
          Refuses-lift _ _ (λ e q. inl (begin-refused _ s e q))
            λ a q. record {
              at_error = λ e h.
                  let run =
                    plan_after_begin-Leaves IsOpen memory_sink emit-IsOpen target source receipts
                      policy (prelude_of target.header source.header policy) _
                      (begin-IsOpen _ s a q) in
                  inr (conclude-failed target source _ _ e run.left h);
            }

  -- A run on a memory sink that fails has either left the sink as it was or aborted it, and then
  -- the sink has no action and no plan, whatever the run had emitted.
  pub plan_merge-failed :
      (receipts : PlanningReceipts) (policy : MergePolicy) (s : MemoryActionSink)
      (e : MergeErrorCode)
      → (plan_merge memory_sink target source receipts policy s).0 ≡ err e
      → ((plan_merge memory_sink target source receipts policy s).1 ≡ s)
        ⊎ IsCleared (plan_merge memory_sink target source receipts policy s).1
  plan_merge-failed receipts policy s e h = (plan_merge-Refuses receipts policy s).at_error e h

  plan_merge-Refuses-IsCleared :
      (receipts : PlanningReceipts) (policy : MergePolicy) (s : MemoryActionSink)
      → s.state ≡ idle
      → validate_headers target.header source.header ≡ ok tt
      → Refuses IsCleared (plan_merge memory_sink target source receipts policy s)
  unfolding plan_merge
  plan_merge-Refuses-IsCleared receipts policy s fresh valid =
      Refuses-lift _ _ (λ e q. absurd (ok-ne-err (sym valid ∙ q)))
        λ _ _.
          Refuses-lift _ _ (λ e q. absurd (begin-accepted _ s fresh e q))
            λ a q. record {
              at_error = λ e h.
                  let run =
                    plan_after_begin-Leaves IsOpen memory_sink emit-IsOpen target source receipts
                      policy (prelude_of target.header source.header policy) _
                      (begin-IsOpen _ s a q) in
                  conclude-failed target source _ _ e run.left h;
            }

  -- A run on an idle memory sink, with headers that `validate_headers` accepts, aborts the sink
  -- wherever it fails: then the sink is in the aborted state, with no action and no plan.
  pub plan_merge-IsCleared :
      (receipts : PlanningReceipts) (policy : MergePolicy) (s : MemoryActionSink)
      (e : MergeErrorCode)
      → s.state ≡ idle
      → validate_headers target.header source.header ≡ ok tt
      → (plan_merge memory_sink target source receipts policy s).0 ≡ err e
      → IsCleared (plan_merge memory_sink target source receipts policy s).1
  plan_merge-IsCleared receipts policy s e fresh valid h =
      (plan_merge-Refuses-IsCleared receipts policy s fresh valid).at_error e h
