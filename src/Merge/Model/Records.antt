-- ===== src/Merge/Model/Records.antt =====
-- `model.rs`: the records of a snapshot, with their orders.
use openmemory.Prelude.{ℕ, ◌≡◌, Option, List, arith}
use openmemory.Prelude.Order.{Ord, ord_by, nat_ord, pair_ord, list_ord, option_ord}
use openmemory.Prelude.Maps.{BTreeMap, BTreeSet}
use openmemory.Text.{Text}
use openmemory.Merge.Canonical.{Hash}
use openmemory.Merge.Model.{
  SpaceId, RevisionId, SnapshotId, result_id_ord, ObjectAddress, EntityAddress, address_ord,
  Lifecycle, lifecycle_ord, trust_ord, IdentifierAssertion, identifier_ord, OriginContribution,
  origin_ord,
}

pub record EntityRecord : Type 0 where
  pub address : EntityAddress
  pub revision : RevisionId
  pub lifecycle : Lifecycle
  pub label : Text
  pub kind : Option Text
  pub lineage : Option Text
  pub aliases : BTreeSet Text
  pub identifiers : BTreeSet IdentifierAssertion
  pub properties : BTreeMap Text Text
  pub origins : BTreeSet OriginContribution

pub record ObservationRecord : Type 0 where
  pub address : ObjectAddress
  pub entity : EntityAddress
  pub revision : RevisionId
  pub lifecycle : Lifecycle
  pub content : Text
  pub origins : BTreeSet OriginContribution

pub record RelationRecord : Type 0 where
  pub address : ObjectAddress
  pub subject : EntityAddress
  pub predicate : Text
  pub object : EntityAddress
  pub revision : RevisionId
  pub lifecycle : Lifecycle
  pub origins : BTreeSet OriginContribution

pub record DomainGeneration : Type 0 where
  pub domain : ℕ
  pub semantic : ℕ
  pub indexed : ℕ
  pub mirrored : ℕ

pub record SpaceVersion : Type 0 where
  pub domains : List DomainGeneration
  pub combined_hash : Hash

pub record SnapshotHeader : Type 0 where
  pub format_version : ℕ
  pub snapshot_id : SnapshotId
  pub space_id : SpaceId
  pub space_version : SpaceVersion
  pub entity_count : ℕ
  pub observation_count : ℕ
  pub relation_count : ℕ
  pub hash : Hash

abbrev pub domain_key : DomainGeneration → ℕ × (ℕ × (ℕ × ℕ))
domain_key d = (d.domain, (d.semantic, (d.indexed, d.mirrored)))

pub domain_key_injective : (a b : DomainGeneration) → domain_key a ≡ domain_key b → a ≡ b
domain_key_injective a b h = ground arith

instance abbrev pub domain_ord : Ord DomainGeneration
domain_ord = ord_by domain_key domain_key_injective pair_ord

abbrev pub version_key : SpaceVersion → List DomainGeneration × Hash
version_key v = (v.domains, v.combined_hash)

pub version_key_injective : (a b : SpaceVersion) → version_key a ≡ version_key b → a ≡ b
version_key_injective a b h = ground arith

instance abbrev pub version_ord : Ord SpaceVersion
version_ord = ord_by version_key version_key_injective pair_ord
