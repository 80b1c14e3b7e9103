-- ===== src/Merge/Receipt.antt =====
-- `receipt.rs`: decisions on identity, and the receipts that keep an entity distinct. The role is
-- that of `crates/openmemory-core/src/space.rs`.
pub mod Sound
use openmemory.Prelude.{
  ℕ, Bool, true, false, not, ◌&&◌, List, length, map, Result, ok, MergeErrorCode, fail_if, eqb,
}
use openmemory.Prelude.Results.{◌>>◌}
use openmemory.Prelude.Order.{◌==◌, nat_ord, list_ord}
use openmemory.Text.{Uuid, Externals}
use openmemory.Merge.Canonical.{
  Hash, CanonicalHasher, ◌▷◌, new, id, u16, u64, usize, bool, hash, each, finish,
}
use openmemory.Merge.Evidence.{
  EntityRevisionRef, revision_ref_ord, IdentityPacket, DeterministicResolution, proof_same,
  proof_different, conflicting_proofs, review_or_separate,
}
use openmemory.Merge.Evidence.Analysis.{encode_revision_ref}
use openmemory.Merge.Discovery.{IdentityCandidate, DiscoveryReceipt}

pub data SpaceRole : Type 0 where
  reader contributor reviewer maintainer : SpaceRole

abbrev pub role_tag : SpaceRole → ℕ
role_tag reader = 0
role_tag contributor = 1
role_tag reviewer = 2
role_tag maintainer = 3

-- `SpaceRole::can_write`
unfoldable pub can_write : SpaceRole → Bool
can_write reader = false
can_write contributor = true
can_write reviewer = true
can_write maintainer = true

-- `SpaceRole::can_review`
unfoldable pub can_review : SpaceRole → Bool
can_review reader = false
can_review contributor = false
can_review reviewer = true
can_review maintainer = true

pub data IdentityDecision : Type 0 where
  same different : IdentityDecision

abbrev pub decision_tag : IdentityDecision → ℕ
decision_tag same = 0
decision_tag different = 1

abbrev pub is_same : IdentityDecision → Bool
is_same same = true
is_same different = false

pub data ResolutionAuthority : Type 0 where
  human : Uuid → SpaceRole → ResolutionAuthority
  system_contradiction : ResolutionAuthority

pub record IdentityResolutionReceipt : Type 0 where
  pub target : EntityRevisionRef
  pub source : EntityRevisionRef
  pub packet_hash : Hash
  pub decision : IdentityDecision
  pub policy_generation : ℕ
  pub authority : ResolutionAuthority
  pub hash : Hash

-- The resolutions that no review may override.
unfoldable pub is_contradiction : DeterministicResolution → Bool
is_contradiction proof_same = false
is_contradiction proof_different = true
is_contradiction conflicting_proofs = true
is_contradiction review_or_separate = false

abbrev is_proof_different : DeterministicResolution → Bool
is_proof_different proof_different = true
is_proof_different proof_same = false
is_proof_different conflicting_proofs = false
is_proof_different review_or_separate = false

-- `matches_candidate`
unfoldable pub matches_candidate : IdentityResolutionReceipt → IdentityCandidate → Bool
matches_candidate r c = r.target == c.target && r.source == c.source

pub record KeepDistinctReceipt : Type 0 where
  pub source : EntityRevisionRef
  pub discovery_hash : Hash
  pub policy_generation : ℕ
  pub candidate_hashes : List Hash
  pub truncated : Bool
  pub hash : Hash

abbrev pub same_bool : Bool → Bool → Bool
same_bool true b = b
same_bool false b = not b

abbrev pub hashes_of : List IdentityCandidate → List Hash
hashes_of cs = map (λ c. c.hash) cs

-- `matches_discovery`
unfoldable pub matches_discovery : KeepDistinctReceipt → DiscoveryReceipt → Bool
matches_discovery k d =
    k.source == d.source
    && k.discovery_hash == d.hash
    && eqb k.policy_generation d.policy_generation
    && same_bool k.truncated d.truncated
    && k.candidate_hashes == hashes_of d.candidates

module _ ⦃ext : Externals⦄ where
  encode_authority : ResolutionAuthority → CanonicalHasher → CanonicalHasher
  unfolding u16 id
  encode_authority (human decision_event role) h =
      h ▷ u16 1 ▷ id decision_event ▷ u16 (role_tag role)
  encode_authority system_contradiction h = u16 2 h

  unfoldable pub hash_resolution :
      EntityRevisionRef
      → EntityRevisionRef
      → Hash
      → IdentityDecision
      → ℕ
      → ResolutionAuthority
      → Hash
  unfolding encode_revision_ref encode_authority new hash u16 u64 finish
  hash_resolution target source packet_hash decision policy_generation authority =
      new "openmemory/identity-receipt/v1"
      ▷ encode_revision_ref target
      ▷ encode_revision_ref source
      ▷ hash packet_hash
      ▷ u16 (decision_tag decision)
      ▷ u64 policy_generation
      ▷ encode_authority authority
      ▷ finish

  -- `IdentityResolutionReceipt::build`
  unfoldable pub build_resolution :
      IdentityPacket → IdentityDecision → ResolutionAuthority → IdentityResolutionReceipt
  build_resolution packet decision authority = record {
    target = packet.left;
    source = packet.right;
    packet_hash = packet.hash;
    decision = decision;
    policy_generation = packet.policy_generation;
    authority = authority;
    hash =
        hash_resolution packet.left packet.right packet.hash decision packet.policy_generation
          authority;
  }

  -- `IdentityResolutionReceipt::reviewed`
  unfoldable pub reviewed :
      IdentityPacket → IdentityDecision → Uuid → SpaceRole → Result IdentityResolutionReceipt
  unfolding can_review is_contradiction
  reviewed packet decision decision_event role = do
    fail_if (not (can_review role)) MergeErrorCode.invalid_input
    fail_if (is_same decision && is_contradiction packet.resolution)
        MergeErrorCode.conflicting_resolution
    ok (build_resolution packet decision (human decision_event role))

  -- `IdentityResolutionReceipt::system_different`
  unfoldable pub system_different : IdentityPacket → Result IdentityResolutionReceipt
  system_different packet = do
    fail_if (not (is_proof_different packet.resolution)) MergeErrorCode.conflicting_resolution
    ok (build_resolution packet different system_contradiction)

  -- `KeepDistinctReceipt::new`
  unfoldable pub new_keep_distinct : DiscoveryReceipt → KeepDistinctReceipt
  unfolding encode_revision_ref new hash u64 usize each bool finish
  new_keep_distinct d =
      let hashes = hashes_of d.candidates in
      record {
        source = d.source;
        discovery_hash = d.hash;
        policy_generation = d.policy_generation;
        candidate_hashes = hashes;
        truncated = d.truncated;
        hash =
            new "openmemory/keep-distinct-receipt/v1"
            ▷ encode_revision_ref d.source
            ▷ hash d.hash
            ▷ u64 d.policy_generation
            ▷ usize (length hashes)
            ▷ each hash hashes
            ▷ bool d.truncated
            ▷ finish;
      }
