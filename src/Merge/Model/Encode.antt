-- ===== src/Merge/Model/Encode.antt =====
-- The canonical encodings of `model.rs`.
use openmemory.Prelude.{ℕ, ◌+◌, ◌-◌, ◌/◌, ◌%◌, List, [], ◌∷◌, ◌++◌, length, ltb, if◌then◌else◌}
use openmemory.Text.{Text, Externals}
use openmemory.Merge.Canonical.{
  CanonicalHasher, ◌▷◌, each, new, finish, u16, u64, usize, text, optional_text, id, hash,
}
use openmemory.Merge.Model.{
  ObjectAddress, ResultObjectId, target, qualified, OriginContribution, AssertionTrust, claimed,
  source_verified, IdentifierAssertion, lifecycle_tag, SpaceId, LogicalId, QualifiedObjectId,
  qualified_id_prefix,
}
use openmemory.Merge.Model.Records.{
  EntityRecord, ObservationRecord, RelationRecord, SpaceVersion, DomainGeneration,
}

unfoldable pub encode_result_id : ResultObjectId → CanonicalHasher → CanonicalHasher
unfolding u16 text
encode_result_id (target value) h = h ▷ u16 1 ▷ text value
encode_result_id (qualified value) h = h ▷ u16 2 ▷ text value

encode_domain : DomainGeneration → CanonicalHasher → CanonicalHasher
unfolding u16 u64
encode_domain d h = h ▷ u16 d.domain ▷ u64 d.semantic ▷ u64 d.indexed ▷ u64 d.mirrored

unfoldable pub encode_space_version : SpaceVersion → CanonicalHasher → CanonicalHasher
unfolding encode_domain each usize hash
encode_space_version v h =
    h ▷ usize (length v.domains) ▷ each encode_domain v.domains ▷ hash v.combined_hash

encode_property : Text × Text → CanonicalHasher → CanonicalHasher
unfolding text
encode_property (name, property) h = h ▷ text name ▷ text property

module _ ⦃ext : Externals⦄ where
  unfoldable pub encode_address : ObjectAddress → CanonicalHasher → CanonicalHasher
  unfolding id text
  encode_address a h = h ▷ id a.space ▷ text a.logical_id

  unfoldable pub encode_origin : OriginContribution → CanonicalHasher → CanonicalHasher
  unfolding encode_address id
  encode_origin o h = h ▷ encode_address o.origin ▷ id o.revision

  unfoldable pub encode_trust : AssertionTrust → CanonicalHasher → CanonicalHasher
  unfolding u16 u64 id text
  encode_trust claimed h = u16 1 h
  encode_trust (source_verified snapshot verifier generation) h =
      h ▷ u16 2 ▷ id snapshot ▷ text verifier ▷ u64 generation

  unfoldable pub encode_identifier : IdentifierAssertion → CanonicalHasher → CanonicalHasher
  unfolding text encode_trust
  encode_identifier i h = h ▷ text i.namespace ▷ text i.value ▷ encode_trust i.trust

  -- From the revision to the properties, as the encoding of a record and the projection share it.
  unfoldable pub encode_entity_fields : EntityRecord → CanonicalHasher → CanonicalHasher
  unfolding encode_property encode_identifier each usize u16 text optional_text id
  encode_entity_fields e h =
      h
      ▷ id e.revision
      ▷ u16 (lifecycle_tag e.lifecycle)
      ▷ text e.label
      ▷ optional_text e.kind
      ▷ optional_text e.lineage
      ▷ usize (length e.aliases)
      ▷ each text e.aliases
      ▷ usize (length e.identifiers)
      ▷ each encode_identifier e.identifiers
      ▷ usize (length e.properties)
      ▷ each encode_property e.properties

  unfoldable pub encode_entity : EntityRecord → CanonicalHasher → CanonicalHasher
  unfolding encode_address encode_entity_fields encode_origin each usize
  encode_entity e h =
      h
      ▷ encode_address e.address
      ▷ encode_entity_fields e
      ▷ usize (length e.origins)
      ▷ each encode_origin e.origins

  unfoldable pub encode_observation : ObservationRecord → CanonicalHasher → CanonicalHasher
  unfolding encode_address encode_origin each usize u16 text id
  encode_observation o h =
      h
      ▷ encode_address o.address
      ▷ encode_address o.entity
      ▷ id o.revision
      ▷ u16 (lifecycle_tag o.lifecycle)
      ▷ text o.content
      ▷ usize (length o.origins)
      ▷ each encode_origin o.origins

  unfoldable pub encode_relation : RelationRecord → CanonicalHasher → CanonicalHasher
  unfolding encode_address encode_origin each usize u16 text id
  encode_relation r h =
      h
      ▷ encode_address r.address
      ▷ encode_address r.subject
      ▷ text r.predicate
      ▷ encode_address r.object
      ▷ id r.revision
      ▷ u16 (lifecycle_tag r.lifecycle)
      ▷ usize (length r.origins)
      ▷ each encode_origin r.origins

-- One lowercase hexadecimal digit, and the `{byte:02x}` of a hash.
unfoldable pub hex_digit : ℕ → ℕ
hex_digit n = if ltb n 10 then b'0' + n else b'a' + (n - 10)

unfoldable pub hex : List ℕ → Text
unfolding hex_digit
hex [] = []
hex (b ∷ bs) = hex_digit (b / 16) ∷ hex_digit (b % 16) ∷ hex bs

module _ ⦃ext : Externals⦄ where
  -- `QualifiedObjectId::derive`
  unfoldable pub derive : SpaceId → LogicalId → QualifiedObjectId
  unfolding new id text finish hex
  derive space logical_id =
      qualified_id_prefix
      ++ hex (new "openmemory/qualified-object-id/v1" ▷ id space ▷ text logical_id ▷ finish)
