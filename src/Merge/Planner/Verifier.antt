-- ===== src/Merge/Planner/Verifier.antt =====
-- `SnapshotVerifier`: recomputes a snapshot's hash and counts while its records stream by.
use openmemory.Prelude.{
  ℕ, ◌+◌, Bool, false, not, ◌||◌, Option, none, some, Result, ok, MergeErrorCode, fail_if, require,
  eqb,
}
use openmemory.Prelude.Results.{◌>>=◌, ◌>>◌}
use openmemory.Prelude.Order.{◌==◌, less, list_ord, nat_ord}
use openmemory.Text.{Externals}
use openmemory.Merge.Canonical.{CanonicalHasher, ◌▷◌, new, id, u16, u64, finish}
use openmemory.Merge.Model.{ObjectAddress, address_ord}
use openmemory.Merge.Model.Records.{EntityRecord, ObservationRecord, RelationRecord, SnapshotHeader}
use openmemory.Merge.Model.Encode.{
  encode_entity, encode_observation, encode_relation, encode_space_version,
}

pub record SnapshotVerifier : Type 0 where
  pub expected : SnapshotHeader
  pub hash : Option CanonicalHasher
  pub previous : Option ObjectAddress
  pub entities : ℕ
  pub observations : ℕ
  pub relations : ℕ
  pub stage : ℕ

-- `previous >= address`, where there is a previous one
unfoldable pub not_after : Option ObjectAddress → ObjectAddress → Bool
not_after none address = false
not_after (some previous) address = not (less previous address)

unfoldable pub ensure_record : ℕ → ObjectAddress → SnapshotVerifier → Result SnapshotVerifier
ensure_record stage address v = do
  fail_if (not (eqb v.stage stage)) MergeErrorCode.protocol_violation
  fail_if (not (eqb address.space v.expected.space_id)) MergeErrorCode.invalid_input
  fail_if (not_after v.previous address) MergeErrorCode.unsorted_input
  ok (record v { previous = some address })

unfoldable pub hash_mut : SnapshotVerifier → Result CanonicalHasher
hash_mut v = require v.hash MergeErrorCode.protocol_violation

module _ ⦃ext : Externals⦄ where
  -- The part of the hash that stands before the first entity.
  unfoldable pub header_hash : SnapshotHeader → CanonicalHasher
  header_hash header =
      new "openmemory/space-snapshot/v1"
      ▷ u16 header.format_version
      ▷ id header.snapshot_id
      ▷ id header.space_id
      ▷ encode_space_version header.space_version
      ▷ u64 header.entity_count

  -- `SnapshotVerifier::new`
  unfoldable pub new_verifier : SnapshotHeader → Result SnapshotVerifier
  new_verifier header = do
    fail_if (not (eqb header.format_version 1)) MergeErrorCode.invalid_input
    ok (record {
      expected = header;
      hash = some (header_hash header);
      previous = none;
      entities = 0;
      observations = 0;
      relations = 0;
      stage = 1;
    })

  unfoldable pub verify_entity : EntityRecord → SnapshotVerifier → Result SnapshotVerifier
  verify_entity e v = do
    v' ← ensure_record 1 e.address v
    hash ← hash_mut v'
    ok (record v' { hash = some (encode_entity e hash); entities = v'.entities + 1 })

  unfoldable pub verify_observation : ObservationRecord → SnapshotVerifier → Result SnapshotVerifier
  verify_observation o v = do
    v' ← ensure_record 2 o.address v
    hash ← hash_mut v'
    ok (record v' { hash = some (encode_observation o hash); observations = v'.observations + 1 })

  unfoldable pub verify_relation : RelationRecord → SnapshotVerifier → Result SnapshotVerifier
  verify_relation r v = do
    v' ← ensure_record 3 r.address v
    hash ← hash_mut v'
    ok (record v' { hash = some (encode_relation r hash); relations = v'.relations + 1 })

  unfoldable pub finish_verifier : SnapshotVerifier → Result SnapshotVerifier
  finish_verifier v = do
    fail_if (not (eqb v.stage 3) || not (eqb v.relations v.expected.relation_count))
        MergeErrorCode.snapshot_mismatch
    hash ← hash_mut v
    fail_if (not (finish hash == v.expected.hash)) MergeErrorCode.snapshot_mismatch
    ok (record v { hash = none; stage = 4 })

unfoldable pub end_entities : SnapshotVerifier → Result SnapshotVerifier
end_entities v = do
  fail_if (not (eqb v.stage 1) || not (eqb v.entities v.expected.entity_count))
      MergeErrorCode.snapshot_mismatch
  hash ← hash_mut v
  ok (record v { hash = some (u64 v.expected.observation_count hash); previous = none; stage = 2 })

unfoldable pub end_observations : SnapshotVerifier → Result SnapshotVerifier
end_observations v = do
  fail_if (not (eqb v.stage 2) || not (eqb v.observations v.expected.observation_count))
      MergeErrorCode.snapshot_mismatch
  hash ← hash_mut v
  ok (record v { hash = some (u64 v.expected.relation_count hash); previous = none; stage = 3 })
