-- ===== src/Merge/Snapshot.antt =====
-- `MemorySnapshot` of `model.rs`: a snapshot in memory, sorted, checked and hashed when it is made.
pub mod Accepted
use openmemory.Prelude.{
  ℕ, ◌≡◌, Bool, not, ◌||◌, Option, none, some, List, [], ◌∷◌, length, map, any, Result, ok, err,
  MergeErrorCode, fail_if, ltb, eqb, if◌then◌else◌,
}
use openmemory.Prelude.Results.{◌>>=◌, ◌>>◌}
use openmemory.Prelude.Order.{Ord, nat_ord}
use openmemory.Prelude.Maps.{BTreeSet, to_set, contains}
use openmemory.Prelude.Sorting.{sort_by}
use openmemory.Text.{Externals}
use openmemory.Merge.Canonical.{
  Hash, CanonicalHasher, ◌▷◌, new, id, u16, usize, u64_of_usize, each, finish,
}
use openmemory.Merge.Model.{SnapshotId, SpaceId, ObjectAddress, address_ord}
use openmemory.Merge.Model.Records.{
  EntityRecord, ObservationRecord, RelationRecord, SpaceVersion, SnapshotHeader,
}
use openmemory.Merge.Model.Encode.{
  encode_entity, encode_observation, encode_relation, encode_space_version,
}
use openmemory.Merge.Planner.Verifier.{not_after}
use openmemory.Merge.Planner.Stream.{SnapshotSource}

abbrev pub max_snapshot_records : ℕ
max_snapshot_records = 1_000_000

pub record MemorySnapshot : Type 0 where
  pub header : SnapshotHeader
  pub entities : List EntityRecord
  pub observations : List ObservationRecord
  pub relations : List RelationRecord
  pub canonical_bytes : ℕ

unfoldable pub validate_count : ℕ → Result (Unit {0})
validate_count value = fail_if (ltb max_snapshot_records value) MergeErrorCode.bound_exceeded

unfoldable pub validate_unique_addresses :
    Option ObjectAddress → List ObjectAddress → SpaceId → Result (Unit {0})
validate_unique_addresses previous [] expected_space = ok tt
validate_unique_addresses previous (value ∷ rest) expected_space = do
  fail_if (not (eqb value.space expected_space)) MergeErrorCode.invalid_input
  fail_if (not_after previous value) MergeErrorCode.duplicate_input
  validate_unique_addresses (some value) rest expected_space

-- No observation and no relation refers to an entity that is absent.
unfoldable pub has_absent_entity :
    BTreeSet ObjectAddress → List ObservationRecord → List RelationRecord → Bool
has_absent_entity ids observations relations =
    any (λ (o : ObservationRecord). not (contains o.entity ids)) observations
    || any (λ (r : RelationRecord). not (contains r.subject ids) || not (contains r.object ids))
        relations

module _ ⦃ext : Externals⦄ where
  -- What is fed for a snapshot, before the hash is taken.
  unfoldable pub snapshot_hasher :
      SnapshotId
      → SpaceId
      → SpaceVersion
      → List EntityRecord
      → List ObservationRecord
      → List RelationRecord
      → CanonicalHasher
  snapshot_hasher snapshot_id space_id space_version entities observations relations =
      new "openmemory/space-snapshot/v1"
      ▷ u16 1
      ▷ id snapshot_id
      ▷ id space_id
      ▷ encode_space_version space_version
      ▷ usize (length entities)
      ▷ each encode_entity entities
      ▷ usize (length observations)
      ▷ each encode_observation observations
      ▷ usize (length relations)
      ▷ each encode_relation relations

  unfoldable pub compute_snapshot_hash :
      SnapshotId
      → SpaceId
      → SpaceVersion
      → List EntityRecord
      → List ObservationRecord
      → List RelationRecord
      → Hash × ℕ
  compute_snapshot_hash snapshot_id space_id space_version entities observations relations =
      let h = snapshot_hasher snapshot_id space_id space_version entities observations relations in
      (finish h, h.encoded_len)

  -- `MemorySnapshot::new`
  unfoldable pub new_snapshot :
      SnapshotId
      → SpaceId
      → SpaceVersion
      → List EntityRecord
      → List ObservationRecord
      → List RelationRecord
      → Result MemorySnapshot
  new_snapshot snapshot_id space_id space_version es os rs = do
    validate_count (length es)
    validate_count (length os)
    validate_count (length rs)
    let entities = sort_by (λ (l r : EntityRecord). address_ord.cmp l.address r.address) es
    let observations = sort_by (λ (l r : ObservationRecord). address_ord.cmp l.address r.address) os
    let relations = sort_by (λ (l r : RelationRecord). address_ord.cmp l.address r.address) rs
    let entity_addresses = map (λ (e : EntityRecord). e.address) entities
    validate_unique_addresses none entity_addresses space_id
    validate_unique_addresses none (map (λ (o : ObservationRecord). o.address) observations)
        space_id
    validate_unique_addresses none (map (λ (r : RelationRecord). r.address) relations) space_id
    fail_if (has_absent_entity (to_set entity_addresses) observations relations)
        MergeErrorCode.dangling_endpoint
    let hashed =
        compute_snapshot_hash snapshot_id space_id space_version entities observations relations
    ok (record {
      header = record {
        format_version = 1;
        snapshot_id = snapshot_id;
        space_id = space_id;
        space_version = space_version;
        entity_count = u64_of_usize (length entities);
        observation_count = u64_of_usize (length observations);
        relation_count = u64_of_usize (length relations);
        hash = hashed.0;
      };
      entities = entities;
      observations = observations;
      relations = relations;
      canonical_bytes = hashed.1;
    })

-- `impl SnapshotSource for MemorySnapshot`
abbrev pub source_of : MemorySnapshot → SnapshotSource
source_of s = record {
  header = s.header;
  entities = record { records = s.entities; outcome = ok tt };
  observations = record { records = s.observations; outcome = ok tt };
  relations = record { records = s.relations; outcome = ok tt };
}
