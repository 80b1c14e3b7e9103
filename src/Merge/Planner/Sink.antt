-- ===== src/Merge/Planner/Sink.antt =====
-- `MemoryActionSink`: the bounded sink that collects the actions.
use openmemory.Prelude.{
  ℕ, Bool, true, false, not, ◌||◌, Option, none, some, List, [], ◌∷◌, ◌++◌, length, Result, ok, err,
  MergeErrorCode, ltb, eqb, if◌then◌else◌,
}
use openmemory.Prelude.Order.{◌==◌, option_ord}
use openmemory.Merge.Planner.{
  max_actions, PlanPrelude, prelude_ord, MergeAction, MergePlan, ActionSink,
}

pub data MemorySinkState : Type 0 where
  idle begun finished aborted : MemorySinkState

pub record MemoryActionSink : Type 0 where
  pub max_actions : ℕ
  pub state : MemorySinkState
  pub prelude : Option PlanPrelude
  pub actions : List MergeAction
  pub plan : Option MergePlan

-- `MemoryActionSink::new`
unfoldable pub new : ℕ → Result MemoryActionSink
new bound =
    if eqb bound 0 || ltb max_actions bound
    then err MergeErrorCode.bound_exceeded
    else ok
        (record { max_actions = bound; state = idle; prelude = none; actions = []; plan = none })

abbrev pub is_begun : MemorySinkState → Bool
is_begun begun = true
is_begun idle = false
is_begun finished = false
is_begun aborted = false

unfoldable pub begin : PlanPrelude → MemoryActionSink → Result (Unit {0}) × MemoryActionSink
begin prelude s = elim s.state [
  | idle ↦ (ok tt, record s { prelude = some prelude; state = begun })
  | begun ↦ (err MergeErrorCode.protocol_violation, s)
  | finished ↦ (err MergeErrorCode.protocol_violation, s)
  | aborted ↦ (err MergeErrorCode.protocol_violation, s)
]

unfoldable pub emit : MergeAction → MemoryActionSink → Result (Unit {0}) × MemoryActionSink
emit action s =
    if not (is_begun s.state)
    then (err MergeErrorCode.protocol_violation, s)
    else if eqb (length s.actions) s.max_actions
    then (err MergeErrorCode.sink_failure, s)
    else (ok tt, record s { actions = s.actions ++ action ∷ [] })

unfoldable pub finish : MergePlan → MemoryActionSink → Result (Unit {0}) × MemoryActionSink
finish plan s =
    if not (is_begun s.state)
    then (err MergeErrorCode.protocol_violation, s)
    else if not (s.prelude == some plan.prelude)
    then (err MergeErrorCode.protocol_violation, s)
    else (ok tt, record s { plan = some plan; state = finished })

unfoldable pub abort : MemoryActionSink → MemoryActionSink
abort s = elim s.state [
  | finished ↦ s
  | idle ↦ record s { plan = none; actions = []; state = aborted }
  | begun ↦ record s { plan = none; actions = []; state = aborted }
  | aborted ↦ record s { plan = none; actions = []; state = aborted }
]

-- `impl ActionSink for MemoryActionSink`
abbrev pub memory_sink : ActionSink MemoryActionSink
memory_sink = record { begin = begin; emit = emit; finish = finish; abort = abort }
