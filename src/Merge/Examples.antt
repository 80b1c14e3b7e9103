-- ===== src/Merge/Examples.antt =====
-- Two small snapshots, the receipts for their merge, and the theorems at them.
pub mod Runs
pub mod Relations
pub mod Fields
use openmemory.Prelude.{
  ℕ, ◌+◌, ◌*◌, ◌%◌, ◌≡◌, refl, List, [], ◌∷◌, foldl, none, false, Result, ok, err, MergeErrorCode,
}
use openmemory.Prelude.Results.{◌>>=◌}
use openmemory.Text.{Text, Externals, literal}
use openmemory.Merge.Model.{ObjectAddress, active, OriginContribution}
use openmemory.Merge.Model.Records.{EntityRecord, ObservationRecord, RelationRecord, SpaceVersion}
use openmemory.Merge.Evidence.{IdentityPolicy, IdentityPacket, review_or_separate}
use openmemory.Merge.Evidence.Analysis.{revision_ref, analyze_pair}
use openmemory.Merge.Discovery.{CandidateIndex, DiscoveryReceipt}
use openmemory.Merge.Discovery.Search.{build, discover}
use openmemory.Merge.Receipt.{
  maintainer, same, system_contradiction, IdentityResolutionReceipt, build_resolution, reviewed,
}
use openmemory.Merge.Planner.{no_counts, MergeAccounting, MergePolicy, MergePlan, PlanningReceipts}
use openmemory.Merge.Planner.Sink.{MemoryActionSink, memory_sink, idle}
use openmemory.Merge.Planner.Run.{plan_merge, prelude_of, validate_headers}
use openmemory.Merge.Planner.Dispositions.{PlannedEntity, prepare_dispositions}
use openmemory.Merge.Planner.Verifier.{SnapshotVerifier}
use openmemory.Merge.Snapshot.Accepted.{check_all, verify_snapshot}
use openmemory.Merge.Snapshot.{MemorySnapshot, new_snapshot, source_of}

-- A checksum in place of the hash, and an id as one character.
instance abbrev example_externals : Externals
example_externals = record {
  blake3 = λ bs. foldl (λ acc b. (acc * 257 + b + 1) % 1_000_003) 7 bs ∷ [];
  hyphenated = λ u. (0x100 + u) ∷ [];
  to_lowercase = λ t. t;
}

abbrev version : SpaceVersion
version = record { domains = []; combined_hash = 1 ∷ [] }

abbrev pub entity : ℕ → Text → EntityRecord
entity space name = record {
  address = record { space = space; logical_id = name };
  revision = 5;
  lifecycle = active;
  label = name;
  kind = none;
  lineage = none;
  aliases = [];
  identifiers = [];
  properties = [];
  origins = record { origin = record { space = space; logical_id = name }; revision = 5 } ∷ [];
}

abbrev or_empty : Result MemorySnapshot → MemorySnapshot
or_empty (ok s) = s
or_empty (err _) = record {
  header = record {
    format_version = 0;
    snapshot_id = 0;
    space_id = 0;
    space_version = version;
    entity_count = 0;
    observation_count = 0;
    relation_count = 0;
    hash = [];
  };
  entities = [];
  observations = [];
  relations = [];
  canonical_bytes = 0;
}

abbrev observation : ℕ → Text → Text → Text → ObservationRecord
observation space name on content = record {
  address = record { space = space; logical_id = name };
  entity = record { space = space; logical_id = on };
  revision = 6;
  lifecycle = active;
  content = content;
  origins = record { origin = record { space = space; logical_id = name }; revision = 6 } ∷ [];
}

abbrev pub relation : ℕ → Text → Text → Text → RelationRecord
relation space name subject object = record {
  address = record { space = space; logical_id = name };
  subject = record { space = space; logical_id = subject };
  predicate = literal "knows";
  object = record { space = space; logical_id = object };
  revision = 7;
  lifecycle = active;
  origins = record { origin = record { space = space; logical_id = name }; revision = 7 } ∷ [];
}

-- The target: two entities, an observation on the first and a relation.
abbrev pub target_snapshot : MemorySnapshot
target_snapshot = or_empty (
    new_snapshot 11 1 version (entity 1 (literal "b") ∷ entity 1 (literal "a") ∷ [])
      (observation 1 (literal "o1") (literal "a") (literal "tall") ∷ [])
      (relation 1 (literal "r1") (literal "a") (literal "b") ∷ []))

-- The source: an entity with a label of the target, and a new one.
abbrev pub source_snapshot : MemorySnapshot
source_snapshot = or_empty (
    new_snapshot 22 2 version (entity 2 (literal "a") ∷ entity 2 (literal "c") ∷ [])
      (observation 2 (literal "o1") (literal "a") (literal "tall")
        ∷ observation 2 (literal "o2") (literal "c") (literal "old")
        ∷ [])
      (relation 2 (literal "r1") (literal "a") (literal "c") ∷ []))

abbrev pub policy : MergePolicy
policy = record { version = 1; identity_policy_generation = 3; allowed_self_loop_predicates = [] }

abbrev identity_policy : IdentityPolicy
identity_policy = record {
  policy_generation = 3;
  ontology_generation = 1;
  authoritative_namespaces = [];
  kind_relations = [];
}

abbrev ok_or {ℓ} : {A : Type ℓ} → A → Result A → A
ok_or a (ok b) = b
ok_or a (err _) = a

abbrev pub index : CandidateIndex
index =
    ok_or
      (record {
        discovery_generation = 0;
        target_snapshot = 0;
        policy = identity_policy;
        entities = [];
        lineage = [];
        verified = [];
        labels = [];
        aliases = [];
      })
      (build 1 11 identity_policy target_snapshot.entities)

abbrev found : EntityRecord → DiscoveryReceipt
found e =
    ok_or
      (record {
        discovery_generation = 0;
        policy_generation = 0;
        source = revision_ref e 22;
        candidates = [];
        total_lower_bound = 0;
        cap = 0;
        truncated = false;
        hash = [];
      })
      (discover index e 22 8)

abbrev pub discovery : DiscoveryReceipt
discovery = found (entity 2 (literal "a"))

abbrev pub packet : IdentityPacket
packet =
    ok_or
      (record {
        left = revision_ref (entity 1 (literal "a")) 0;
        right = revision_ref (entity 2 (literal "a")) 0;
        resolution = review_or_separate;
        resolver_generations = [];
        evidence = [];
        policy_generation = 0;
        ontology_generation = 0;
        hash = [];
      })
      (analyze_pair (entity 1 (literal "a")) 11 (entity 2 (literal "a")) 22 identity_policy)

abbrev pub receipt : IdentityResolutionReceipt
receipt =
    ok_or (build_resolution packet same system_contradiction) (reviewed packet same 99 maintainer)

-- The receipts as the crate makes them: one discovery for each source entity, and a review of the
-- one candidate, by a maintainer.
abbrev pub receipts : PlanningReceipts
receipts = record {
  discoveries = discovery ∷ found (entity 2 (literal "c")) ∷ [];
  resolutions = receipt ∷ [];
  keep_distinct = [];
}

abbrev pub new_sink : MemoryActionSink
new_sink = record { max_actions = 20; state = idle; prelude = none; actions = []; plan = none }

abbrev pub run : Result MergePlan × MemoryActionSink
run =
    plan_merge memory_sink (source_of target_snapshot) (source_of source_snapshot) receipts policy
      new_sink

abbrev pub no_accounting : MergeAccounting
no_accounting = record {
  consumed_candidates = 0;
  consumed_discoveries = 0;
  consumed_resolutions = 0;
  consumed_keep_distinct = 0;
  result_entities = 0;
  result_observations = 0;
  result_relations = 0;
  retained_origins = 0;
}

abbrev pub example_plan : MergePlan
example_plan =
    ok_or
      (record {
        prelude = prelude_of target_snapshot.header source_snapshot.header policy;
        action_stream_hash = [];
        action_counts = no_counts;
        accounting = no_accounting;
        predicted_result_hash = [];
        plan_hash = [];
      })
      run.0

-- No receipts at all, so the first source entity has no disposition.
abbrev pub no_receipts : PlanningReceipts
no_receipts = record { discoveries = []; resolutions = []; keep_distinct = [] }

abbrev pub refused_run : Result MergePlan × MemoryActionSink
refused_run =
    plan_merge memory_sink (source_of target_snapshot) (source_of source_snapshot) no_receipts
      policy new_sink

abbrev pub prepared : List PlannedEntity × MergeAccounting
prepared = ok_or ([], no_accounting) (prepare_dispositions receipts policy)

abbrev fresh_verifier : SnapshotVerifier
fresh_verifier = record {
  expected = target_snapshot.header;
  hash = none;
  previous = none;
  entities = 0;
  observations = 0;
  relations = 0;
  stage = 0;
}

abbrev pub verified : SnapshotVerifier
verified = ok_or fresh_verifier (verify_snapshot (source_of target_snapshot))

-- The runs, and the computations that they rest on, at these inputs.
pub computed :
    (run.0 ≡ ok example_plan)
    × (refused_run.0 ≡ err MergeErrorCode.discovery_incomplete)
    × (prepare_dispositions receipts policy ≡ ok prepared)
    × (verify_snapshot (source_of target_snapshot) ≡ ok verified)
    × (discover index (entity 2 (literal "a")) 22 8 ≡ ok discovery)
    × (reviewed packet same 99 maintainer ≡ ok receipt)
    × (validate_headers target_snapshot.header source_snapshot.header ≡ ok tt)
unfolding openmemory.Merge.Snapshot.validate_count
    openmemory.Merge.Snapshot.validate_unique_addresses openmemory.Merge.Snapshot.has_absent_entity
    openmemory.Merge.Snapshot.snapshot_hasher openmemory.Merge.Snapshot.compute_snapshot_hash
    openmemory.Merge.Snapshot.new_snapshot openmemory.Merge.Planner.total_actions
    openmemory.Merge.Receipt.matches_candidate openmemory.Merge.Receipt.build_resolution
    openmemory.Merge.Receipt.reviewed openmemory.Merge.Evidence.kind_compatibility
    openmemory.Merge.Evidence.Analysis.compare_all_identifiers
    openmemory.Merge.Evidence.Analysis.compare_lineage openmemory.Merge.Evidence.Analysis.note_kinds
    openmemory.Merge.Evidence.Analysis.resolution_of
    openmemory.Merge.Evidence.Analysis.compare_names openmemory.Merge.Evidence.Analysis.findings
    openmemory.Merge.Evidence.Analysis.analyze_pair openmemory.Merge.Discovery.Search.new_candidate
    openmemory.Merge.Discovery.Search.index_entity openmemory.Merge.Discovery.Search.index_all
    openmemory.Merge.Discovery.Search.build openmemory.Merge.Discovery.Search.matches_of
    openmemory.Merge.Discovery.Search.candidate_of openmemory.Merge.Discovery.Search.all_candidates
    openmemory.Merge.Discovery.Search.discover openmemory.Merge.Model.Encode.derive
    openmemory.Merge.Planner.Tokens.encode_action openmemory.Merge.Planner.Tokens.hash_plan
    openmemory.Merge.Planner.Verifier.not_after openmemory.Merge.Planner.Verifier.ensure_record
    openmemory.Merge.Planner.Verifier.hash_mut openmemory.Merge.Planner.Verifier.header_hash
    openmemory.Merge.Planner.Verifier.new_verifier openmemory.Merge.Planner.Verifier.verify_entity
    openmemory.Merge.Planner.Verifier.verify_observation
    openmemory.Merge.Planner.Verifier.verify_relation
    openmemory.Merge.Planner.Verifier.finish_verifier openmemory.Merge.Planner.Verifier.end_entities
    openmemory.Merge.Planner.Verifier.end_observations
    openmemory.Merge.Planner.Entities.binary_search openmemory.Merge.Planner.Entities.dispose_record
    openmemory.Merge.Planner.Entities.visit_target_entity
    openmemory.Merge.Planner.Entities.visit_source_entity
    openmemory.Merge.Planner.Observations.observation_key
    openmemory.Merge.Planner.Observations.place_observation
    openmemory.Merge.Planner.Observations.visit_target_observation
    openmemory.Merge.Planner.Observations.visit_source_observation
    openmemory.Merge.Planner.Run.validate_headers openmemory.Merge.Planner.Run.validate_accounting
    openmemory.Merge.Planner.Run.canonical_tokens openmemory.Merge.Planner.Run.final_accounting
    openmemory.Merge.Planner.Run.plan_of openmemory.Merge.Planner.Run.finish_plan
    openmemory.Merge.Planner.Run.plan_entities openmemory.Merge.Planner.Run.plan_observations
    openmemory.Merge.Planner.Run.plan_relations openmemory.Merge.Planner.Run.plan_after_begin
    openmemory.Merge.Planner.Run.conclude openmemory.Merge.Planner.Run.plan_merge
    openmemory.Merge.Planner.Dispositions.index_discoveries
    openmemory.Merge.Planner.Dispositions.index_resolutions
    openmemory.Merge.Planner.Dispositions.index_keep_distinct
    openmemory.Merge.Planner.Dispositions.review_candidate
    openmemory.Merge.Planner.Dispositions.review_candidates
    openmemory.Merge.Planner.Dispositions.dispose_reviewed
    openmemory.Merge.Planner.Dispositions.dispose openmemory.Merge.Planner.Dispositions.dispose_all
    openmemory.Merge.Planner.Dispositions.prepare_dispositions
    openmemory.Merge.Planner.Stream.continue openmemory.Merge.Planner.Stream.visit
    openmemory.Merge.Planner.Stream.emit openmemory.Merge.Planner.Sink.begin
    openmemory.Merge.Planner.Sink.emit openmemory.Merge.Planner.Sink.finish
    openmemory.Merge.Planner.Relations.relation_key
    openmemory.Merge.Planner.Relations.place_relation
    openmemory.Merge.Planner.Relations.visit_target_relation
    openmemory.Merge.Planner.Relations.visit_source_relation openmemory.Prelude.Maps.insert
    openmemory.Prelude.Maps.insert_value mathlib.Core.List.filter_map
    openmemory.Merge.Planner.Dispositions.conclude_review check_all verify_snapshot
computed = (refl, refl, refl, refl, refl, refl, refl)
