-- ===== src/Merge/Examples/Relations.antt =====
-- The theorem on the endpoints of a source relation, at one relation.
use openmemory.Prelude.{◌≡◌, refl, none, some, [], ◌∷◌, Result, ok, err}
use openmemory.Prelude.Maps.{BTreeMap}
use openmemory.Text.{literal}
use openmemory.Merge.Canonical.{new}
use openmemory.Merge.Model.{LogicalId, ResultObjectId}
use openmemory.Merge.Planner.Run.{initial_state}
use openmemory.Merge.Planner.Sink.{MemoryActionSink, memory_sink, begun}
use openmemory.Merge.Planner.Relations.{Relations, visit_source_relation}
use openmemory.Merge.Planner.Relations.Endpoints.{Linked, visit_source_relation-Carries}
use openmemory.Merge.Examples.{
  example_externals, source_snapshot, relation, policy, new_sink, no_accounting,
}

abbrev results : BTreeMap LogicalId ResultObjectId
results =
    (literal "a", ResultObjectId.target (literal "a"))
    ∷ (literal "c", ResultObjectId.qualified (literal "omq1:c"))
    ∷ []

abbrev before : Relations
before = record {
  verifier = record {
    expected = source_snapshot.header;
    hash = some (new "openmemory/space-snapshot/v1");
    previous = none;
    entities = 2;
    observations = 2;
    relations = 0;
    stage = 3;
  };
  index = [];
  ids = [];
  qualified = [];
  state = initial_state no_accounting;
}

abbrev open_sink : MemoryActionSink
open_sink = record new_sink { state = begun }

abbrev step : Result Relations × MemoryActionSink
step =
    visit_source_relation memory_sink policy results
      (relation 2 (literal "r1") (literal "a") (literal "c")) before open_sink

abbrev after : Relations
after = elim step.0 [ ok l ↦ l | err _ ↦ before ]

computed : step.0 ≡ ok after
unfolding openmemory.Merge.Snapshot.validate_count
    openmemory.Merge.Snapshot.validate_unique_addresses openmemory.Merge.Snapshot.has_absent_entity
    openmemory.Merge.Snapshot.snapshot_hasher openmemory.Merge.Snapshot.compute_snapshot_hash
    openmemory.Merge.Snapshot.new_snapshot openmemory.Merge.Planner.total_actions
    openmemory.Merge.Model.Encode.derive openmemory.Merge.Planner.Tokens.encode_action
    openmemory.Merge.Planner.Verifier.not_after openmemory.Merge.Planner.Verifier.ensure_record
    openmemory.Merge.Planner.Verifier.hash_mut openmemory.Merge.Planner.Verifier.header_hash
    openmemory.Merge.Planner.Verifier.verify_relation openmemory.Merge.Planner.Stream.continue
    openmemory.Merge.Planner.Stream.visit openmemory.Merge.Planner.Stream.emit
    openmemory.Merge.Planner.Sink.emit openmemory.Merge.Planner.Relations.relation_key
    openmemory.Merge.Planner.Relations.place_relation
    openmemory.Merge.Planner.Relations.visit_target_relation
    openmemory.Merge.Planner.Relations.visit_source_relation openmemory.Prelude.Maps.insert
    openmemory.Prelude.Maps.insert_value openmemory.Prelude.Sorting.sort_by
computed = refl

visit_source_relation-Carries_example :
    Linked policy results (relation 2 (literal "r1") (literal "a") (literal "c")) open_sink step.1
visit_source_relation-Carries_example =
    visit_source_relation-Carries policy results
      (relation 2 (literal "r1") (literal "a") (literal "c")) before after open_sink computed
